-- ===== src/Mqtt/Routing.antt =====
-- Where the commands of the MQTT side go.
use r60v_home_assistant.Base.{
  ◌≡◌, ◌≢◌, ◌⊎◌, refl, ap, sym, ◌∙◌, inl, inr, Bool, true, false, ◌&&◌, ◌||◌, map, Bool-cases,
  Option, some, List, [], ◌∷◌, ◌++◌, All, if◌then◌else◌, arith,
}
use r60v_home_assistant.Base.Results.{Result, ok, err}
use r60v_home_assistant.Protocol.Text.{Text, text_eq}
use r60v_home_assistant.Broker.Command.{unknown}
use r60v_home_assistant.State.Entities.{
  Rejection, value_error, overflow_error, Write, Rounded, Entity, entities, ClimateEntity,
  climate_entities,
}
use r60v_home_assistant.State.Entities.Resolve.{outcome, resolve}
use r60v_home_assistant.Mqtt.{
  MqttBridge, command_topic, climate_target_command_topic, command_topics, publish_availability,
  give, on_connect, has_encoder, route_climate, route_entity, on_message,
}

-- The registries know the key, whatever the payload.
abbrev IsKnown : (Text → Rounded) → Text → Type 0
IsKnown round key = (payload : Text) → resolve round key payload ≢ unknown

outcome_known : (r : Result Rejection Write) → outcome r ≢ unknown
unfolding outcome
outcome_known (ok c) e = absurd cc
outcome_known (err value_error) e = absurd cc
outcome_known (err overflow_error) e = absurd cc

abbrev KnownIf : (Text → Rounded) → Entity → Type 0
KnownIf round e = has_encoder e ≡ true → IsKnown round e.key

entities-Known : (round : Text → Rounded) → All (KnownIf round) entities
unfolding entities has_encoder resolve climate_entities
entities-Known round = (
  λ h. absurd cc,
  (
    λ h. absurd cc,
    (
      λ h. absurd cc,
      (
        λ h p. outcome_known _,
        (
          λ h p. outcome_known _,
          (
            λ h p. outcome_known _,
            (
              λ h p. outcome_known _,
              (
                λ h p. outcome_known _,
                (λ h p. outcome_known _, (λ h p. outcome_known _, (λ h p. outcome_known _, tt))),
              ),
            ),
          ),
        ),
      ),
    ),
  ),
)

climates-Known : (round : Text → Rounded) → All (λ c. IsKnown round c.key) (climate_entities round)
unfolding entities resolve climate_entities
climates-Known round = (λ p. outcome_known _, (λ p. outcome_known _, tt))

-- Whether a topic is among those of a list.
abbrev pub is_among : Text → List Text → Bool
is_among t [] = false
is_among t (u ∷ us) = text_eq t u || is_among t us

is_among-append :
    (t : Text) (us vs : List Text) → is_among t (us ++ vs) ≡ (is_among t us || is_among t vs)
is_among-append t [] vs = refl
is_among-append t (u ∷ us) vs = ground (arith, is_among-append t us vs)

-- A routed topic gives a key that the registries know.
abbrev Routed : (Text → Rounded) → Option Text → Type 0
Routed round o = (key : Text) × (o ≡ some key) × IsKnown round key

module _ (round : Text → Rounded) (base topic : Text) where
  route_climate-Routed :
      (cs : List ClimateEntity)
      → All (λ c. IsKnown round c.key) cs
      → is_among topic (map (λ (c : ClimateEntity). climate_target_command_topic base c.key) cs)
        ≡ true
      → Routed round (route_climate base topic cs)
  unfolding route_climate
  route_climate-Routed [] h among = absurd cc
  route_climate-Routed (c ∷ cs) h among =
      elim (Bool-cases (text_eq topic (climate_target_command_topic base c.key))) [
        | inl hit ↦ rw hit (c.key, refl, h.0)
        | inr miss ↦ rw miss (route_climate-Routed cs h.1 (ground arith))
      ]

  -- A topic of the entities, or one that is routed otherwise.
  route_entity-Routed :
      (es : List Entity) (other : Option Text)
      → All (KnownIf round) es
      → (is_among topic (command_topics base es) ≡ true) ⊎ Routed round other
      → Routed round (route_entity base topic es other)
  unfolding route_entity command_topics
  route_entity-Routed [] other h (inl among) = absurd cc
  route_entity-Routed [] other h (inr routed) = routed
  route_entity-Routed (e ∷ es) other h way =
      elim (Bool-cases (has_encoder e && text_eq topic (command_topic base e.key))) [
        | inl hit ↦ rw hit (e.key, refl, h.0 (ground arith))
        | inr miss ↦ rw miss (
            route_entity-Routed es other h.1
              (elim way [ inl among ↦ inl (ground arith) | inr routed ↦ inr routed ]))
      ]

either-subscribed :
    (b : Bool) (m n : MqttBridge)
    → m.subscribed ≡ n.subscribed
    → (if b then m else n).subscribed ≡ n.subscribed
either-subscribed true m n h = h
either-subscribed false m n h = refl

on_connect-subscribed :
    (round : Text → Rounded) (m : MqttBridge)
    → (on_connect round m).subscribed
      ≡ m.subscribed
        ++ (command_topics m.base_topic entities
            ++ map
                (λ (c : ClimateEntity). climate_target_command_topic m.base_topic c.key)
                (climate_entities round))
unfolding on_connect publish_availability give
on_connect-subscribed round m = either-subscribed m.made _ _ refl

-- Every topic that the bridge subscribes to when it connects is routed to an entity's key, and a
-- command with that key is never turned down as unknown, whatever its payload.
pub subscribed-known :
    (round : Text → Rounded) (m : MqttBridge) (topic payload : Text)
    → m.subscribed ≡ []
    → is_among topic (on_connect round m).subscribed ≡ true
    → (key : Text) × (on_message round m.base_topic topic ≡ some key)
      × (resolve round key payload ≢ unknown)
unfolding on_message
subscribed-known round m topic payload new among =
    let entity_topics = command_topics m.base_topic entities in
    let climate_topics =
      map (λ (c : ClimateEntity). climate_target_command_topic m.base_topic c.key)
        (climate_entities round) in
    let both = is_among-append topic entity_topics climate_topics in
    let listed : is_among topic (entity_topics ++ climate_topics) ≡ true =
      ap (λ l. is_among topic (l ++ (entity_topics ++ climate_topics))) (sym new)
      ∙ (ap (is_among topic) (sym (on_connect-subscribed round m)) ∙ among) in
    let routed : Routed round (on_message round m.base_topic topic) =
      elim (Bool-cases (is_among topic entity_topics)) [
        | inl theirs ↦
            route_entity-Routed round m.base_topic topic entities _ (entities-Known round)
              (inl theirs)
        | inr no_entity ↦
            route_entity-Routed round m.base_topic topic entities _ (entities-Known round) (
              inr (
                route_climate-Routed round m.base_topic topic (climate_entities round)
                  (climates-Known round) (ground (arith, both, listed))))
      ] in
    let (key, found, known) = routed in (key, found, known payload)
