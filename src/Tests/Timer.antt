-- ===== src/Tests/Timer.antt =====
-- The timer switch, the diagnostics of the link and the bridge's report of
-- custom_components/rocket_r60v at concrete inputs.
use r60v_home_assistant.Base.{◌≡◌, refl, true, false, none, some, [], ◌∷◌, arith, if◌then◌else◌}
use r60v_home_assistant.Base.Int.{pos, low_byte}
use r60v_home_assistant.Protocol.Text.{Text, codes, text_eq}
use r60v_home_assistant.Integration.Snapshot.{StateSnapshot, blank, after, settings_byte, overwrite}
use r60v_home_assistant.Integration.Entities.{ClockTime, timer_time, encode_timer}
use r60v_home_assistant.Integration.BridgeHealth.{usable, blocking, supported}
use r60v_home_assistant.Integration.Diagnostics.{
  Member, missing, flag, number, from_json, as_bool, as_int, fetch_bridge_health, answers,
}
use r60v_home_assistant.Integration.Timer.{
  auto_on_switch, snapshot_time, turn_on, turn_off, added, configured_time, is_on,
}
use r60v_home_assistant.Integration.Timer.Memory.{updated, timer-remembers}

abbrev half_past_six : ClockTime
half_past_six = record { hour = 6; minute = 30 }

-- The machine with the timer at half past six, and with the timer disabled.
abbrev timed : StateSnapshot
timed = after (0x51, 6 ∷ 30 ∷ []) blank

abbrev disabled : StateSnapshot
disabled = after (0x51, 100 ∷ 100 ∷ []) blank

switched_off : is_on (after (turn_off auto_on_switch) timed) auto_on_switch ≡ false
unfolding is_on snapshot_time turn_off encode_timer timer_time after settings_byte overwrite
    low_byte
switched_off = refl

timer-remembers_example :
    snapshot_time
      (after
        (turn_on (
          added disabled
            (some (configured_time (updated (timed ∷ disabled ∷ []) auto_on_switch)))
            auto_on_switch))
        disabled)
      auto_on_switch
    ≡ some half_past_six
unfolding snapshot_time timer_time after settings_byte overwrite low_byte
timer-remembers_example =
    timer-remembers timed disabled (disabled ∷ []) auto_on_switch auto_on_switch half_past_six refl
      (refl, tt) refl refl (omega arith)

-- A report that the link is down.
link_down : Text → Member
link_down key =
    if text_eq key (codes "schema")
    then number (pos 1)
    else if text_eq key (codes "link_up")
    then flag false
    else missing

link_down-blocks : blocking (from_json (λ s. none) link_down) ≡ true
unfolding blocking usable supported from_json as_bool as_int link_down
link_down-blocks = refl

no_report : fetch_bridge_health (λ s. none) (answers 503 (some link_down)) ≡ none
unfolding fetch_bridge_health
no_report = refl
