-- ===== src/Integration/Climate/Setpoint.antt =====
-- What the thermostats' commands do: the setpoint and the power bit.
use r60v_home_assistant.Base.{
  ℕ, zero, suc, ◌≤◌, ◌<◌, ◌≡◌, refl, ap, subst, ◌⊎◌, inl, inr, Bool-cases, Bool, true, false, ◌&&◌,
  none, some, [], ◌∷◌, arith, leb, length, get_elem?,
}
use mathlib.Core.Option.{some_inj}
use r60v_home_assistant.Base.Int.{ℤ, pos, negsuc}
use r60v_home_assistant.Protocol.Address.{settings_len, standby, service_boiler_enable}
use r60v_home_assistant.Integration.Snapshot.{
  StateSnapshot, Command, after, settings_byte-after_first, settings_byte-after_above,
}
use r60v_home_assistant.Integration.Climate.{
  R60vClimateDescription, climate_entities, brew_boiler, steam_boiler, target_c, encode_setpoint,
  encode_power, in_range, brew_is_on, steam_is_on,
}

-- What a boiler's ranges are good for: setpoints are bytes inside the settings block.
abbrev IsSound : R60vClimateDescription → Type 0
IsSound d = (d.setpoint_address < settings_len) × (d.range_c.1 < 256)

known : (k : ℕ) (d : R60vClimateDescription) → get_elem? climate_entities k ≡ some d → IsSound d
known zero d h = subst IsSound (some_inj.0 h) (omega arith, omega arith)
known (suc zero) d h = subst IsSound (some_inj.0 h) (omega arith, omega arith)
known (suc (suc k)) d h = cc

-- Whether a target lies in a range, its bounds included.
abbrev pub Inside : ℕ × ℕ → ℤ → Type 0
Inside (lo, hi) (pos n) = (lo ≤ n) × (n ≤ hi)
Inside (lo, hi) (negsuc n) = ⊥

abbrev pub Outside : ℕ × ℕ → ℤ → Type 0
Outside (lo, hi) (pos n) = (n < lo) ⊎ (hi < n)
Outside (lo, hi) (negsuc n) = Unit

-- A target is taken, and set, or it is refused.
abbrev pub Taken : R60vClimateDescription → ℤ → StateSnapshot → Type 0
Taken d v s = (c : Command) × (encode_setpoint d v ≡ some c) × (pos (target_c d (after c s)) ≡ v)

taken :
    (d : R60vClimateDescription) (n : ℕ) (s : StateSnapshot)
    → IsSound d
    → settings_len ≤ length s.settings
    → Inside d.range_c (pos n)
    → Taken d (pos n) s
unfolding encode_setpoint in_range target_c
taken d n s sound whole h = (
  (d.setpoint_address, n ∷ []),
  ground arith,
  ap pos (
      settings_byte-after_first d.setpoint_address n [] s (omega (arith, h.1, sound.1))
        (omega (arith, sound.0, whole))),
)

decided :
    (d : R60vClimateDescription) (v : ℤ) (s : StateSnapshot)
    → IsSound d
    → settings_len ≤ length s.settings
    → (Inside d.range_c v × Taken d v s) ⊎ (Outside d.range_c v × (encode_setpoint d v ≡ none))
decided d (negsuc n) s sound whole = inr (tt, unfold encode_setpoint in_range in refl)
decided d (pos n) s sound whole = elim (Bool-cases (leb d.range_c.0 n && leb n d.range_c.1)) [
  | inl inside ↦
      let h : Inside d.range_c (pos n) = ground arith in inl (h, taken d n s sound whole h)
  | inr outside ↦ inr (ground arith, unfold encode_setpoint in_range in rw outside refl)
]

-- A thermostat takes a target exactly when it lies in the range of the boiler, the bounds included,
-- and refuses every other; once the command of a target that it takes shows in a whole settings
-- block, the setpoint is the target.
pub encode_setpoint_lem :
    (k : ℕ) (d : R60vClimateDescription) (v : ℤ) (s : StateSnapshot)
    → get_elem? climate_entities k ≡ some d
    → settings_len ≤ length s.settings
    → (Inside d.range_c v × Taken d v s) ⊎ (Outside d.range_c v × (encode_setpoint d v ≡ none))
encode_setpoint_lem k d v s h whole = decided d v s (known k d h) whole

-- Switched by its thermostat, the brew boiler is on or off as asked; the steam boiler is on when it
-- was switched on and the machine is not in standby.
is_on-encode_power :
    (on : Bool) (s : StateSnapshot)
    → settings_len ≤ length s.settings
    → (brew_is_on (after (encode_power brew_boiler on) s) ≡ on)
      × (steam_is_on (after (encode_power steam_boiler on) s) ≡ (on && brew_is_on s))
unfolding brew_is_on steam_is_on encode_power
is_on-encode_power true s whole = (
  rw (settings_byte-after_first standby 0 [] s (omega arith) (omega (arith, whole))) refl,
  rw (settings_byte-after_above service_boiler_enable (1 ∷ []) standby s (omega arith)) rw
      (settings_byte-after_first service_boiler_enable 1 [] s (omega arith) (omega (arith, whole)))
      (ground arith),
)
is_on-encode_power false s whole = (
  rw (settings_byte-after_first standby 1 [] s (omega arith) (omega (arith, whole))) refl,
  rw (settings_byte-after_above service_boiler_enable (0 ∷ []) standby s (omega arith)) rw
      (settings_byte-after_first service_boiler_enable 0 [] s (omega arith) (omega (arith, whole)))
      (ground arith),
)
