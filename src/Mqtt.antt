-- ===== src/Mqtt.antt =====
-- The MQTT side of the bridge: `MqttBridge` of bridge/r60v_broker/mqtt_bridge.py with the topics of
-- config.py, and `StatePublisher` of publisher.py. The MQTT client is the log of what it is given.
pub mod Routing
use r60v_home_assistant.Base.{
  ℕ, suc, ◌/◌, ◌%◌, Bool, true, false, not, ◌&&◌, ◌||◌, Option, none, some, List, [], ◌∷◌, ◌++◌,
  map, if◌then◌else◌,
}
use r60v_home_assistant.Base.Int.{ℤ, pos, negsuc}
use r60v_home_assistant.Protocol.Text.{Text, codes, text_eq}
use r60v_home_assistant.Integration.Profile.{decimal}
use r60v_home_assistant.State.Snapshot.{StateSnapshot}
use r60v_home_assistant.State.Entities.{
  Value, number, signed, tenths, label, Rounded, Entity, entities, ClimateEntity, climate_entities,
}
use r60v_home_assistant.Store.{DeviceState, available}

-- `made` is whether there is a client; the log holds the retained messages that were published, by
-- their topics, and `subscribed` the topics of commands.
pub record MqttBridge : Type 0 where
  pub base_topic : Text
  pub made : Bool
  pub published : List (Text × Text)
  pub subscribed : List Text
  pub last_pub_available : Option Bool

unfoldable pub availability_topic : Text → Text
availability_topic base = base ++ codes "/status"

unfoldable pub state_topic : Text → Text → Text
state_topic base key = base ++ b'/' ∷ key ++ codes "/state"

unfoldable pub command_topic : Text → Text → Text
command_topic base key = base ++ b'/' ∷ key ++ codes "/set"

unfoldable pub climate_current_topic : Text → Text → Text
climate_current_topic base key = base ++ b'/' ∷ key ++ codes "/current"

unfoldable pub climate_target_state_topic : Text → Text → Text
climate_target_state_topic base key = base ++ b'/' ∷ key ++ codes "/target"

unfoldable pub climate_target_command_topic : Text → Text → Text
climate_target_command_topic base key = base ++ b'/' ∷ key ++ codes "/target/set"

unfoldable pub climate_mode_topic : Text → Text → Text
climate_mode_topic base key = base ++ b'/' ∷ key ++ codes "/mode"

give : Text → Text → MqttBridge → MqttBridge
give topic payload m =
    if m.made then record m { published = m.published ++ (topic, payload) ∷ [] } else m

unfoldable pub publish_availability : Bool → MqttBridge → MqttBridge
unfolding give
publish_availability online m =
    give (availability_topic m.base_topic) (if online then codes "online" else codes "offline") m

-- `str` of an integer, and of a number of tenths.
integer_text : ℤ → Text
integer_text (pos n) = decimal n
integer_text (negsuc n) = b'-' ∷ decimal (suc n)

tenths_text : ℤ → Text
tenths_text (pos n) = decimal (n / 10) ++ b'.' ∷ decimal (n % 10)
tenths_text (negsuc n) = b'-' ∷ decimal (suc n / 10) ++ b'.' ∷ decimal (suc n % 10)

value_text : Value → Text
unfolding integer_text tenths_text
value_text (number n) = decimal n
value_text (signed n) = integer_text n
value_text (tenths n) = tenths_text n
value_text (label s) = s

publish_state : Text → Value → MqttBridge → MqttBridge
unfolding give value_text
publish_state key value m = give (state_topic m.base_topic key) (value_text value) m

publish_climate : Text → Value → Value → MqttBridge → MqttBridge
unfolding give value_text
publish_climate key current target m = give (climate_mode_topic m.base_topic key) (codes "heat") (
    give (climate_target_state_topic m.base_topic key) (value_text target)
      (give (climate_current_topic m.base_topic key) (value_text current) m))

-- One entity whose `decode` raises does not stop the others.
publish_decoded : Text → Option Value → MqttBridge → MqttBridge
unfolding publish_state
publish_decoded key none m = m
publish_decoded key (some value) m = publish_state key value m

publish_entities : List Entity → StateSnapshot → MqttBridge → MqttBridge
unfolding publish_decoded
publish_entities [] s m = m
publish_entities (e ∷ es) s m = publish_entities es s (publish_decoded e.key (e.decode s) m)

publish_climates : List ClimateEntity → StateSnapshot → MqttBridge → MqttBridge
unfolding publish_climate
publish_climates [] s m = m
publish_climates (c ∷ cs) s m =
    publish_climates cs s (publish_climate c.key (c.current s) (c.target s) m)

-- `StatePublisher.publish`, after `interpolate_live_temps`.
unfoldable pub publish : (Text → Rounded) → DeviceState → MqttBridge → MqttBridge
unfolding publish_entities publish_climates
publish round store m =
    if store.have_data
    then publish_climates (climate_entities round) store.snapshot
        (publish_entities entities store.snapshot m)
    else m

same_as : Bool → Option Bool → Bool
same_as b none = false
same_as true (some c) = c
same_as false (some c) = not c

-- `StatePublisher._on_store_change`
unfoldable pub on_store_change : DeviceState → MqttBridge → MqttBridge
unfolding same_as
on_store_change store m =
    if same_as (available store) m.last_pub_available
    then m
    else publish_availability (available store)
        (record m { last_pub_available = some (available store) })

has_encoder : Entity → Bool
has_encoder e = elim (e.encode) [ none ↦ false | some _ ↦ true ]

command_topics : Text → List Entity → List Text
unfolding has_encoder
command_topics base [] = []
command_topics base (e ∷ es) =
    let rest = command_topics base es in
    if has_encoder e then command_topic base e.key ∷ rest else rest

-- `_on_connect`
unfoldable pub on_connect : (Text → Rounded) → MqttBridge → MqttBridge
unfolding command_topics
on_connect round m = publish_availability true (record m {
  subscribed =
      m.subscribed
      ++ (command_topics m.base_topic entities
          ++ map (λ (c : ClimateEntity). climate_target_command_topic m.base_topic c.key)
              (climate_entities round));
})

route_climate : Text → Text → List ClimateEntity → Option Text
route_climate base topic [] = none
route_climate base topic (c ∷ cs) =
    let rest = route_climate base topic cs in
    if text_eq topic (climate_target_command_topic base c.key) then some (c.key) else rest

route_entity : Text → Text → List Entity → Option Text → Option Text
unfolding has_encoder
route_entity base topic [] other = other
route_entity base topic (e ∷ es) other =
    let rest = route_entity base topic es other in
    if has_encoder e && text_eq topic (command_topic base e.key) then some (e.key) else rest

-- `_on_message`: the key of the command that is passed on with the payload, if the topic has one.
unfoldable pub on_message : (Text → Rounded) → Text → Text → Option Text
unfolding route_entity route_climate
on_message round base topic =
    route_entity base topic entities (route_climate base topic (climate_entities round))
