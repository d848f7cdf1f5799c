-- ===== src/Store/Availability.antt =====
-- Reachability as the store decides it: a specification over histories, and the notices it sends.
use r60v_home_assistant.Base.{
  ℕ, suc, ◌≤◌, ◌<◌, ◌≡◌, ◌≢◌, refl, ◌⊎◌, Bool, true, false, not, ◌||◌, List, [], ◌∷◌, ◌++◌, arith,
  leb,
}
use r60v_home_assistant.Store.{
  DeviceState, init, available, note_success, note_failure, note_wedged,
}

-- What the poll loop tells the store.
pub data Report : Type 0 where
  success failure wedged : Report

unfoldable pub note : Report → DeviceState → DeviceState
note success = note_success
note failure = note_failure
note wedged = note_wedged

-- A history, newest report first.
unfoldable pub run : DeviceState → List Report → DeviceState
unfolding note
run s [] = s
run s (r ∷ history) = note r (run s history)

-- Failures since the last success, and whether a wedge was reported since.
pub failures : List Report → ℕ
failures [] = 0
failures (success ∷ history) = 0
failures (failure ∷ history) = suc (failures history)
failures (wedged ∷ history) = failures history

pub was_wedged : List Report → Bool
was_wedged [] = false
was_wedged (success ∷ history) = false
was_wedged (failure ∷ history) = was_wedged history
was_wedged (wedged ∷ history) = true

-- The specification: offline from a wedge, or from `grace` failures in a row, until a success.
unfoldable pub offline : ℕ → List Report → Bool
unfolding failures was_wedged
offline grace history = was_wedged history || leb grace (failures history)

record Agrees (grace : ℕ) (history : List Report) (s : DeviceState) : Type 0 where
  grace_kept : s.availability_grace ≡ grace
  verdict_right : available s ≡ not (offline grace history)
  counted : was_wedged history ≡ false → s.fail_streak ≡ failures history
  wedged_streak : was_wedged history ≡ true → grace ≤ s.fail_streak

init-Agrees : (grace stale step : ℕ) → 0 < grace → Agrees grace [] (init grace stale step)
unfolding init available offline
init-Agrees grace stale step h = record {
  grace_kept = refl;
  verdict_right = ground arith;
  counted = λ e. refl;
  wedged_streak = λ e. cc;
}

note-Agrees :
    (r : Report) (grace : ℕ) (history : List Report) (s : DeviceState)
    → 0 < grace
    → Agrees grace history s
    → Agrees grace (r ∷ history) (note r s)
unfolding note note_success note_failure note_wedged available offline
note-Agrees success grace history s h a = ground (arith, a)
note-Agrees _ grace history s h a = ground (arith, a)

run-Agrees :
    (grace stale step : ℕ) (history : List Report)
    → 0 < grace
    → Agrees grace history (run (init grace stale step) history)
unfolding run
run-Agrees grace stale step [] h = init-Agrees grace stale step h
run-Agrees grace stale step (r ∷ history) h =
    note-Agrees r grace history (run (init grace stale step) history) h
      (run-Agrees grace stale step history h)

-- After any history of reports a new store with a positive grace reads available exactly when,
-- since the last success, no wedge was reported and fewer failures than the grace came in.
pub available-run :
    (grace stale step : ℕ) (history : List Report)
    → 0 < grace
    → available (run (init grace stale step) history) ≡ not (offline grace history)
available-run grace stale step history h = (run-Agrees grace stale step history h).verdict_right

-- A report calls every listener once if it changes the stored verdict, and none if it does not.
calls-note :
    (r : Report) (s : DeviceState)
    → (((note r s).verdict ≡ s.verdict) × ((note r s).calls ≡ s.calls))
      ⊎ (((note r s).verdict ≢ s.verdict) × ((note r s).calls ≡ s.calls ++ s.listeners))
unfolding note note_success note_failure note_wedged
calls-note success s = ground arith
calls-note _ s = ground arith
