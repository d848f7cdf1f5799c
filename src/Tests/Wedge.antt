-- ===== src/Tests/Wedge.antt =====
-- The wedge recovery of bridge/r60v_broker/wedge.py with its default schedule.
use r60v_home_assistant.Base.{ℕ, ◌+◌, ◌<◌, ◌≡◌, refl, ◌⊎◌, true, false, [], ◌∷◌, arith, length}
use r60v_home_assistant.Wedge.{
  WedgeRecovery, init, wedge_after_default, cooldown_steps_default, resume_after_probes_default,
  in_cooldown, awaiting_probe, begin_cooldown, record_probe_success, step_at,
}
use r60v_home_assistant.Wedge.Recovery.{probe_at, resumes_after_run, IsCleared}

abbrev fresh : WedgeRecovery
fresh = init wedge_after_default cooldown_steps_default resume_after_probes_default

abbrev resting : WedgeRecovery
resting = (begin_cooldown 1000 fresh).0

step_0 : (begin_cooldown 1000 fresh).1 ≡ 300000
unfolding begin_cooldown init step_at
step_0 = refl

resumes_after_run_example :
    let v = probe_at (302000 ∷ []) resting in
    let (u, resumed) = record_probe_success 303000 v in
    ((resumed ≡ true)
      × (length {A = ℕ} (302000 ∷ []) + 1 ≡ fresh.resume_after_probes)
      × IsCleared u)
    ⊎ ((resumed ≡ false)
        × (length {A = ℕ} (302000 ∷ []) + 1 < fresh.resume_after_probes)
        × (awaiting_probe 303000 u ≡ true)
        × (in_cooldown 303000 u ≡ false)
        × (u.cooldown_index ≡ fresh.cooldown_index + 1))
unfolding init
resumes_after_run_example =
    resumes_after_run 1000 303000 303000 (302000 ∷ []) fresh (omega arith) (omega arith)
