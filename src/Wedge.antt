-- ===== src/Wedge.antt =====
-- The wedge recovery (bridge/r60v_broker/wedge.py). Times are whole milliseconds; an operation takes
-- the reading of the clock that it makes.
pub mod Phases
pub mod Backoff
pub mod Recovery
use r60v_home_assistant.Base.{
  ℕ, zero, suc, ◌+◌, ◌-◌, max, Bool, true, false, not, ◌&&◌, Option, none, some, List, [], ◌∷◌, ltb,
  leb, if◌then◌else◌,
}

abbrev pub wedge_after_default : ℕ
wedge_after_default = 45000

-- The tuple of steps is not empty, or `begin_cooldown` raises an `IndexError`: its first step and
-- the further ones.
abbrev pub Steps : Type 0
Steps = ℕ × List ℕ

abbrev pub cooldown_steps_default : Steps
cooldown_steps_default = (300000, 600000 ∷ 1200000 ∷ 1800000 ∷ [])

abbrev pub resume_after_probes_default : ℕ
resume_after_probes_default = 2

pub record WedgeRecovery : Type 0 where
  pub wedge_after : ℕ
  pub cooldown_steps : Steps
  pub resume_after_probes : ℕ
  pub first_fail_at : Option ℕ
  pub cooldown_until : Option ℕ
  pub cooldown_index : ℕ
  pub probe_successes : ℕ

unfoldable pub init : ℕ → Steps → ℕ → WedgeRecovery
init after steps probes = record {
  wedge_after = after;
  cooldown_steps = steps;
  resume_after_probes = max 1 probes;
  first_fail_at = none;
  cooldown_until = none;
  cooldown_index = 0;
  probe_successes = 0;
}

unfoldable pub record_success : WedgeRecovery → WedgeRecovery
record_success w = record w {
  first_fail_at = none;
  cooldown_until = none;
  cooldown_index = 0;
  probe_successes = 0;
}

since : Option ℕ → ℕ → Option ℕ
since none now = some now
since (some t) now = some t

unfoldable pub record_failure : ℕ → WedgeRecovery → WedgeRecovery
unfolding since
record_failure now w = record w { first_fail_at = since w.first_fail_at now }

unfoldable pub record_probe_success : ℕ → WedgeRecovery → WedgeRecovery × Bool
unfolding record_success
record_probe_success now w =
    let counted = record w { probe_successes = w.probe_successes + 1 } in
    if leb counted.resume_after_probes counted.probe_successes
    then (record_success counted, true)
    else (record counted { cooldown_until = some now }, false)

-- `steps[min(index, len(steps) - 1)]`
step_from : ℕ → List ℕ → ℕ → ℕ
step_from first rest zero = first
step_from first [] (suc i) = first
step_from first (next ∷ rest) (suc i) = step_from next rest i

unfoldable pub step_at : Steps → ℕ → ℕ
unfolding step_from
step_at (first, rest) i = step_from first rest i

unfoldable pub begin_cooldown : ℕ → WedgeRecovery → WedgeRecovery × ℕ
begin_cooldown now w =
    let step = step_at w.cooldown_steps w.cooldown_index in
    (
      record w {
        cooldown_until = some (now + step);
        cooldown_index = w.cooldown_index + 1;
        probe_successes = 0;
      },
      step,
    )

long_ago : Option ℕ → ℕ → ℕ → Bool
long_ago none after now = false
long_ago (some t) after now = leb (t + after) now

-- `now - first_fail_at >= wedge_after`
unfoldable pub wedged : ℕ → WedgeRecovery → Bool
unfolding long_ago
wedged now w = long_ago w.first_fail_at w.wedge_after now

before : ℕ → Option ℕ → Bool
before now none = false
before now (some t) = ltb now t

unfoldable pub in_cooldown : ℕ → WedgeRecovery → Bool
unfolding before
in_cooldown now w = before now w.cooldown_until

elapsed : ℕ → Option ℕ → Bool
elapsed now none = false
elapsed now (some t) = leb t now

unfoldable pub awaiting_probe : ℕ → WedgeRecovery → Bool
unfolding elapsed
awaiting_probe now w = elapsed now w.cooldown_until

left_of : Option ℕ → ℕ → ℕ
left_of none now = 0
left_of (some t) now = t - now

-- `-` stops at 0, as `max(0.0, …)` does.
unfoldable pub cooldown_remaining : ℕ → WedgeRecovery → ℕ
unfolding left_of in_cooldown
cooldown_remaining now w = if not (in_cooldown now w) then 0 else left_of w.cooldown_until now
