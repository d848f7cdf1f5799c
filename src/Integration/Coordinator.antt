-- ===== src/Integration/Coordinator.antt =====
-- The state of `R60VCoordinator` (custom_components/rocket_r60v/coordinator.py), with its cooldown
-- and the connection state that it shows. `last_update_success` and `data` are those of its base
-- class. Times are whole milliseconds; an operation takes the reading of the clock that it makes.
use r60v_home_assistant.Base.{
  ℕ, ◌+◌, ◌-◌, ◌/◌, Bool, true, false, not, ◌&&◌, Option, none, some, [], ◌∷◌, ltb, leb,
  if◌then◌else◌,
}
use r60v_home_assistant.Wedge.{Steps, step_at}
use r60v_home_assistant.Integration.Snapshot.{StateSnapshot}
use r60v_home_assistant.Integration.BridgeHealth.{BridgeHealth, blocking}

abbrev pub cooldown_steps : Steps
cooldown_steps = (300000, 600000 ∷ 1200000 ∷ 1800000 ∷ [])

pub data ConnectionState : Type 0 where
  connected : ConnectionState
  reconnecting : ConnectionState
  cooldown : ConnectionState
  machine_unavailable : ConnectionState
  bridge_down : ConnectionState
  bridge_recovering : ConnectionState

pub record Coordinator : Type 0 where
  pub push_enabled : Bool
  pub consecutive_failures : ℕ
  pub cooldown_until : Option ℕ
  pub cooldown_index : ℕ
  pub probe_successes : ℕ
  pub bridge : Option BridgeHealth
  pub last_update_success : Bool
  pub data_now : Option StateSnapshot

-- `success` and `shown` are what the base class starts with.
unfoldable pub init : Bool → Bool → Option StateSnapshot → Coordinator
init push success shown = record {
  push_enabled = push;
  consecutive_failures = 0;
  cooldown_until = none;
  cooldown_index = 0;
  probe_successes = 0;
  bridge = none;
  last_update_success = success;
  data_now = shown;
}

unfoldable pub is_blocking : Option BridgeHealth → Bool
unfolding blocking
is_blocking none = false
is_blocking (some b) = blocking b

unfoldable pub bridge_blocking : Coordinator → Bool
unfolding is_blocking
bridge_blocking c = is_blocking c.bridge

before_end : ℕ → Option ℕ → Bool
before_end now none = false
before_end now (some end) = ltb now end

unfoldable pub in_cooldown : ℕ → Coordinator → Bool
unfolding before_end
in_cooldown now c = before_end now c.cooldown_until

seconds_to : ℕ → Option ℕ → ℕ
seconds_to now none = 0
seconds_to now (some end) = (end - now) / 1000

-- Whole seconds; in a cooldown the difference is positive.
unfoldable pub cooldown_remaining : ℕ → Coordinator → ℕ
unfolding in_cooldown seconds_to
cooldown_remaining now c = if not (in_cooldown now c) then 0 else seconds_to now c.cooldown_until

bridge_state : Option BridgeHealth → ConnectionState
bridge_state none = bridge_down
bridge_state (some b) = if b.diagnostic_window then bridge_recovering else bridge_down

-- `snapshot is not None and not snapshot.available`
says_unavailable : Option StateSnapshot → Bool
says_unavailable none = false
says_unavailable (some snapshot) = not snapshot.available

unfoldable pub connection_state : ℕ → Coordinator → ConnectionState
unfolding bridge_blocking in_cooldown bridge_state says_unavailable
connection_state now c =
    if bridge_blocking c
    then bridge_state c.bridge
    else if in_cooldown now c
    then cooldown
    else if not c.last_update_success
    then reconnecting
    else if c.push_enabled && says_unavailable c.data_now
    then machine_unavailable
    else connected

unfoldable pub enter_cooldown : ℕ → Coordinator → Coordinator
enter_cooldown now c = record c {
  cooldown_until = some (now + step_at cooldown_steps c.cooldown_index);
  cooldown_index = c.cooldown_index + 1;
  probe_successes = 0;
}

unfoldable pub clear_cooldown : Coordinator → Coordinator
clear_cooldown c = record c {
  cooldown_until = none;
  cooldown_index = 0;
  consecutive_failures = 0;
  probe_successes = 0;
}

abbrev pub resume_after_probes : ℕ
resume_after_probes = 2

-- What a good probe does: it counts, and a clean run of them ends the cooldown. The second part is
-- whether the poll goes on to a full read.
unfoldable pub probe_answered : Coordinator → Coordinator × Bool
unfolding clear_cooldown
probe_answered c =
    let counted = record c { probe_successes = c.probe_successes + 1 } in
    if leb resume_after_probes counted.probe_successes
    then (clear_cooldown counted, true)
    else (counted, false)
