-- ===== src/Store.antt =====
-- The device state store (bridge/r60v_broker/store.py). Times are whole milliseconds, temperature
-- steps whole degrees. A listener is a number; `calls` records the listeners that were called, in
-- order. What a listener raises is swallowed, so it does not show.
pub mod Availability
pub mod Overlay
pub mod Easing
use r60v_home_assistant.Base.{
  ℕ, zero, suc, ◌+◌, max, Bool, true, false, not, ◌&&◌, ◌||◌, Option, none, some, List, [], ◌∷◌,
  ◌++◌, ltb, leb, ◌==◌, if◌then◌else◌, length, set,
}
use r60v_home_assistant.Base.Int.{ℤ, pos, negsuc, ◌+ℤ◌, ◌-ℤ◌, min_ℤ, max_ℤ, ltb_ℤ, eq_ℤ}
use r60v_home_assistant.Base.Dict.{Dict}
use r60v_home_assistant.Base.Dict
use r60v_home_assistant.Protocol.Address.{
  standby, brew_boiler_temp, service_boiler_temp, service_boiler_enable, current_brew_temp,
  current_service_temp,
}
use r60v_home_assistant.State.Snapshot.{StateSnapshot, blank, settings_byte}

pub record DeviceState : Type 0 where
  pub availability_grace : ℕ
  pub stale_after : ℕ
  pub interpolate_step : ℕ
  pub snapshot : StateSnapshot
  pub have_data : Bool
  pub fail_streak : ℕ
  pub verdict : Option Bool
  pub last_live_update_at : ℕ
  pub listeners : List ℕ
  pub pending : Dict ℤ
  pub calls : List ℕ

unfoldable pub init : ℕ → ℕ → ℕ → DeviceState
init grace stale step = record {
  availability_grace = grace;
  stale_after = stale;
  interpolate_step = step;
  snapshot = blank;
  have_data = false;
  fail_streak = 0;
  verdict = none;
  last_live_update_at = 0;
  listeners = [];
  pending = [];
  calls = [];
}

unfoldable pub subscribe : ℕ → DeviceState → DeviceState
subscribe listener s = record s { listeners = s.listeners ++ listener ∷ [] }

remove_first : ℕ → List ℕ → List ℕ
remove_first x [] = []
remove_first x (y ∷ ys) = if y == x then ys else y ∷ remove_first x ys

-- The closure that `subscribe` returns; a listener that is gone is no error.
unfoldable pub unsubscribe : ℕ → DeviceState → DeviceState
unfolding remove_first
unsubscribe listener s = record s { listeners = remove_first listener s.listeners }

unfoldable pub notify : DeviceState → DeviceState
notify s = record s { calls = s.calls ++ s.listeners }

reachable : Option Bool → Bool
reachable none = true
reachable (some online) = online

unfoldable pub available : DeviceState → Bool
unfolding reachable
available s = reachable s.verdict

-- `self._available is online`
same_verdict : Option Bool → Bool → Bool
same_verdict none online = false
same_verdict (some true) online = online
same_verdict (some false) online = not online

unfoldable pub set_available : Bool → DeviceState → DeviceState
unfolding same_verdict notify
set_available online s =
    if same_verdict s.verdict online then s else notify (record s { verdict = some online })

unfoldable pub note_success : DeviceState → DeviceState
unfolding set_available
note_success s = set_available true (record s { fail_streak = 0 })

unfoldable pub note_failure : DeviceState → DeviceState
unfolding set_available
note_failure s =
    let t = record s { fail_streak = s.fail_streak + 1 } in
    if leb t.availability_grace t.fail_streak then set_available false t else t

unfoldable pub note_wedged : DeviceState → DeviceState
unfolding set_available
note_wedged s =
    set_available false (record s { fail_streak = max s.fail_streak s.availability_grace })

-- Every pending byte, in the order of the dict, written over the settings.
unfoldable pub overlay : Dict ℤ → List ℤ → List ℤ
overlay [] settings = settings
overlay ((address, byte) ∷ rest) settings =
    overlay rest (if ltb address (length settings) then set settings address byte else settings)

unfoldable pub apply_pending : DeviceState → DeviceState
apply_pending s = record s {
  snapshot = record (s.snapshot) { settings = overlay s.pending s.snapshot.settings };
}

unfoldable pub update_settings : List ℤ → DeviceState → DeviceState
unfolding apply_pending notify
update_settings bytes s =
    let t = apply_pending (record s { snapshot = record (s.snapshot) { settings = bytes } }) in
    notify (record t { have_data = true })

unfoldable pub update_live : ℕ → ℕ → List ℤ → DeviceState → DeviceState
unfolding notify
update_live now address bytes s = notify (record s {
  snapshot = record (s.snapshot) { live = Dict.put address bytes s.snapshot.live };
  last_live_update_at = now;
  have_data = true;
})

-- `any(b < 0 or b > 0xFF for b in data)`
unfoldable pub any_out_of_range : List ℤ → Bool
any_out_of_range [] = false
any_out_of_range (b ∷ bs) = ltb_ℤ b (pos 0) || ltb_ℤ (pos 0xFF) b || any_out_of_range bs

abbrev pub is_empty : List ℤ → Bool
is_empty [] = true
is_empty (b ∷ bs) = false

-- `for offset, byte in enumerate(data): self._pending[address + offset] = byte`
unfoldable pub record_pending : ℕ → List ℤ → Dict ℤ → Dict ℤ
record_pending address [] pending = pending
record_pending address (b ∷ bs) pending =
    record_pending (suc address) bs (Dict.put address b pending)

-- The rest of `apply_optimistic`, once the address is known not to be negative.
optimistic_at : ℕ → List ℤ → DeviceState → DeviceState × Bool
unfolding apply_pending notify
optimistic_at address bytes s =
    if is_empty bytes
    then (s, false)
    else if ltb (length s.snapshot.settings) (address + length bytes)
    then (s, false)
    else if any_out_of_range bytes
    then (s, false)
    else (
      notify (apply_pending (record s { pending = record_pending address bytes s.pending })),
      true,
    )

unfoldable pub apply_optimistic : ℤ → List ℤ → DeviceState → DeviceState × Bool
unfolding optimistic_at
apply_optimistic (pos address) bytes s =
    if not s.have_data then (s, false) else optimistic_at address bytes s
apply_optimistic (negsuc n) bytes s = (s, false)

unfoldable pub clear_found : Option ℤ → ℕ → ℤ → Dict ℤ → Dict ℤ
clear_found none address byte pending = pending
clear_found (some b) address byte pending =
    if eq_ℤ b byte then Dict.pop address pending else pending

-- The dict has no negative keys: `apply_optimistic` is what writes it.
unfoldable pub clear_one : ℤ → ℤ → Dict ℤ → Dict ℤ
clear_one (pos address) byte pending = clear_found (Dict.get address pending) address byte pending
clear_one (negsuc n) byte pending = pending

unfoldable pub clear_all : List (ℤ × ℤ) → Dict ℤ → Dict ℤ
clear_all [] pending = pending
clear_all ((address, byte) ∷ expected) pending = clear_all expected (clear_one address byte pending)

unfoldable pub reconcile_clear : List (ℤ × ℤ) → DeviceState → DeviceState
reconcile_clear expected s = record s { pending = clear_all expected s.pending }

-- `{addr: byte for addr, byte in zip(addresses, data)}`, the bytes that a write intended.
unfoldable pub expectation : ℤ → List ℤ → List (ℤ × ℤ)
expectation address [] = []
expectation address (b ∷ bs) = (address, b) ∷ expectation (address +ℤ pos 1) bs

-- One nudge of `current` towards `target`.
unfoldable pub eased : ℕ → ℤ → ℤ → ℤ
eased step current target =
    current +ℤ max_ℤ (pos 0 -ℤ pos step) (min_ℤ (pos step) (target -ℤ current))

ease_found : Option (List ℤ) → ℕ → ℕ → DeviceState → DeviceState
ease_found (some (current ∷ more)) live_address setpoint_address s =
    let target = pos (settings_byte setpoint_address s.snapshot) in
    if eq_ℤ target current then s else record s {
      snapshot = record (s.snapshot) {
        live = Dict.put live_address (eased s.interpolate_step current target ∷ []) s.snapshot.live;
      };
    }
ease_found _ live_address setpoint_address s = s

unfoldable pub ease : ℕ → ℕ → DeviceState → DeviceState
unfolding ease_found
ease live_address setpoint_address s =
    ease_found (Dict.get live_address s.snapshot.live) live_address setpoint_address s

unfoldable pub interpolate_live_temps : ℕ → DeviceState → DeviceState
interpolate_live_temps now s =
    if not s.have_data
    then s
    else if ltb now (s.last_live_update_at + s.stale_after)
    then s
    else if not (settings_byte standby s.snapshot == 0)
    then s
    else (let t = ease current_brew_temp brew_boiler_temp s in
        if settings_byte service_boiler_enable t.snapshot == 0
        then t
        else ease current_service_temp service_boiler_temp t)

pub record RawSnapshot : Type 0 where
  pub online : Bool
  pub settings : List ℤ
  pub live : Dict (List ℤ)

-- The keys of `live` are sent as decimal texts, which name the same addresses.
unfoldable pub raw_snapshot : DeviceState → RawSnapshot
raw_snapshot s = record {
  online = available s;
  settings = s.snapshot.settings;
  live = s.snapshot.live;
}
