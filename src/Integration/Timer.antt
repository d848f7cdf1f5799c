-- ===== src/Integration/Timer.antt =====
-- The timer switch of custom_components/rocket_r60v/switch.py, with its descriptions in entities.py.
pub mod Memory
use r60v_home_assistant.Base.{
  ℕ, ◌++◌, ◌&&◌, Bool, true, false, Option, none, some, List, [], ◌∷◌, leb, if◌then◌else◌,
}
use r60v_home_assistant.Base.Int.{ℤ, pos, negsuc}
use r60v_home_assistant.Protocol.Text.{Text}
use r60v_home_assistant.Protocol.Address.{
  auto_on_hour, auto_on_minute, auto_off_hour, auto_off_minute,
}
use r60v_home_assistant.State.Entities.{two_digits}
use r60v_home_assistant.Integration.Snapshot.{StateSnapshot, Command}
use r60v_home_assistant.Integration.Entities.{ClockTime, timer_time, encode_timer}
use r60v_home_assistant.Integration.Profile.{parts}
use r60v_home_assistant.Integration.Stream.Keys.{int_dec}

-- A switch with the addresses and the default of its description; `configured` is what it remembers.
pub record TimerSwitch : Type 0 where
  pub hour_address : ℕ
  pub minute_address : ℕ
  pub configured : ClockTime

-- `TIMER_SWITCHES`, as the switches start.
abbrev pub auto_on_switch : TimerSwitch
auto_on_switch = record {
  hour_address = auto_on_hour;
  minute_address = auto_on_minute;
  configured = record { hour = 6; minute = 0 };
}

abbrev pub auto_off_switch : TimerSwitch
auto_off_switch = record {
  hour_address = auto_off_hour;
  minute_address = auto_off_minute;
  configured = record { hour = 22; minute = 0 };
}

-- `_snapshot_time`
unfoldable pub snapshot_time : StateSnapshot → TimerSwitch → Option ClockTime
snapshot_time s t = timer_time t.hour_address t.minute_address s

unfoldable pub is_on : StateSnapshot → TimerSwitch → Bool
is_on s t = elim (snapshot_time s t) [ none ↦ false | some _ ↦ true ]

-- The attribute `configured_time`: `strftime("%H:%M")`.
unfoldable pub configured_time : TimerSwitch → Text
configured_time t = two_digits t.configured.hour ++ b':' ∷ two_digits t.configured.minute

remember : Option ClockTime → TimerSwitch → TimerSwitch
remember none t = t
remember (some current) t = record t { configured = current }

-- `_handle_coordinator_update`
unfoldable pub handle_update : StateSnapshot → TimerSwitch → TimerSwitch
unfolding remember
handle_update s t = remember (snapshot_time s t) t

-- `dt_time(hour=hour, minute=minute)` of what `int` gives; `none` is a `ValueError`.
time_from : Option ℤ → Option ℤ → Option ClockTime
time_from (some (pos hour)) (some (pos minute)) =
    if leb hour 23 && leb minute 59 then some (record { hour = hour; minute = minute }) else none
time_from _ _ = none

time_of_parts : List Text → Option ClockTime
unfolding time_from int_dec
time_of_parts (a ∷ b ∷ []) = time_from (int_dec a) (int_dec b)
time_of_parts _ = none

-- What a stored attribute gives; it is absent, or no text, where there is none.
stored_time : Option Text → Option ClockTime
unfolding time_of_parts
stored_time none = none
stored_time (some stored) = time_of_parts (parts stored)

restore : Option ClockTime → Option Text → TimerSwitch → TimerSwitch
unfolding remember stored_time
restore (some current) stored t = remember (some current) t
restore none stored t = remember (stored_time stored) t

-- `async_added_to_hass`, with the attribute of the last state.
unfoldable pub added : StateSnapshot → Option Text → TimerSwitch → TimerSwitch
unfolding restore
added s stored t = restore (snapshot_time s t) stored t

-- What `async_turn_on` and `async_turn_off` write.
unfoldable pub turn_on : TimerSwitch → Command
turn_on t = encode_timer t.hour_address (some t.configured)

unfoldable pub turn_off : TimerSwitch → Command
turn_off t = encode_timer t.hour_address none
