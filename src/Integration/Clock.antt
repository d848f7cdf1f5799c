-- ===== src/Integration/Clock.antt =====
-- Setting the machine's clock: `build_clock_payload` and `async_push_clock` of
-- custom_components/rocket_r60v/clock.py.
use r60v_home_assistant.Base.{ℕ, ◌+◌, Bool, true, false, List, [], ◌∷◌}
use r60v_home_assistant.Base.Int.{ℤ, pos, ◌-ℤ◌}
use r60v_home_assistant.Base.Results.{Result, ok, err}
use r60v_home_assistant.Protocol.Frame.{Frame}
use r60v_home_assistant.Protocol.Address.{date_time}
use r60v_home_assistant.Integration.Client.{R60vClient, Line, Trouble, lost, write_registers}

-- `weekday` counts from Monday, which is 0.
pub record Datetime : Type 0 where
  pub minute : ℕ
  pub hour : ℕ
  pub weekday : ℕ
  pub day : ℕ
  pub month : ℕ
  pub year : ℕ

unfoldable pub build_clock_payload : Datetime → List ℤ
build_clock_payload now =
    pos 0
    ∷ pos now.minute
    ∷ pos now.hour
    ∷ pos (now.weekday + 1)
    ∷ pos now.day
    ∷ pos now.month
    ∷ (pos now.year -ℤ pos 2000)
    ∷ []

-- An `R60VConnectionError` is caught; what else there is goes on.
reported : R60vClient × Result Trouble Frame → R60vClient × Result Trouble Bool
reported (c, ok f) = (c, ok true)
reported (c, err lost) = (c, ok false)
reported (c, err e) = (c, err e)

unfoldable pub push_clock : Line → Datetime → R60vClient → R60vClient × Result Trouble Bool
unfolding reported
push_clock line now c = reported (write_registers line (pos date_time) (build_clock_payload now) c)
