-- ===== src/Integration/Diagnostics/Link.antt =====
-- The link sensor beside the pausing of the polls.
use r60v_home_assistant.Base.{
  ◌≡◌, refl, sym, ◌∙◌, ◌↔◌, ◌⊎◌, inl, inr, Bool, true, false, not, ◌&&◌, ◌||◌, Option, none, some,
  if◌then◌else◌,
}
use r60v_home_assistant.Integration.BridgeHealth.{BridgeHealth, usable, blocking}
use r60v_home_assistant.Integration.Coordinator.{Coordinator, is_blocking, bridge_blocking}
use r60v_home_assistant.Integration.Diagnostics.{
  LinkState, up, down, recovering, unknown, link_of, link_state,
}

abbrev pub IsTrouble : LinkState → Type 0
IsTrouble l = (l ≡ down) ⊎ (l ≡ recovering)

is_trouble : LinkState → Bool
is_trouble up = false
is_trouble down = true
is_trouble recovering = true
is_trouble unknown = false

is_trouble_iff : (l : LinkState) → (is_trouble l ≡ true) ↔ IsTrouble l
unfolding is_trouble
is_trouble_iff up = (λ h. absurd cc, λ h. elim h [ inl e ↦ absurd cc | inr e ↦ absurd cc ])
is_trouble_iff down = (λ h. inl refl, λ h. refl)
is_trouble_iff recovering = (λ h. inr refl, λ h. refl)
is_trouble_iff unknown = (λ h. absurd cc, λ h. elim h [ inl e ↦ absurd cc | inr e ↦ absurd cc ])

-- The three tests of a report, whatever they come to.
tests :
    (used window link : Bool)
    → is_trouble
        (if not used then unknown else if window then recovering else if link then up else down)
      ≡ (used && (window || not link))
unfolding is_trouble
tests true true link = refl
tests true false true = refl
tests true false false = refl
tests false window link = refl

trouble-blocking : (o : Option BridgeHealth) → is_trouble (link_of o) ≡ is_blocking o
unfolding link_of is_blocking blocking is_trouble
trouble-blocking none = refl
trouble-blocking (some b) = tests (usable b) b.diagnostic_window b.link_up

-- The coordinator pauses the polls of the machine exactly while the link sensor shows that the link
-- is down or recovering.
blocking_iff : (c : Coordinator) → (bridge_blocking c ≡ true) ↔ IsTrouble (link_state c)
unfolding bridge_blocking link_state
blocking_iff c =
    let same = trouble-blocking c.bridge in
    let (there, back) = is_trouble_iff (link_of c.bridge) in
    (λ h. there (same ∙ h), λ h. sym same ∙ back h)
