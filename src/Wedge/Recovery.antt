-- ===== src/Wedge/Recovery.antt =====
-- Graded recovery: a run of good probes, unbroken, before polling resumes.
use r60v_home_assistant.Base.{
  ℕ, ◌+◌, ◌≤◌, ◌<◌, ◌≡◌, refl, ◌∙◌, true, false, none, List, [], ◌∷◌, arith, leb, length,
  Bool-cases, ◌⊎◌, inl, inr,
}
use r60v_home_assistant.Wedge.{
  WedgeRecovery, record_probe_success, begin_cooldown, awaiting_probe, in_cooldown,
}

-- Good probes at the given times, oldest first.
unfoldable pub probe_at : List ℕ → WedgeRecovery → WedgeRecovery
probe_at [] w = w
probe_at (t ∷ ts) w = probe_at ts (record_probe_success t w).0

-- Short of the required run the count goes up by one a probe.
-- No streak, no window, no back-off, no probe counted.
pub record IsCleared (w : WedgeRecovery) : Type 0 where
  pub no_streak : w.first_fail_at ≡ none
  pub no_window : w.cooldown_until ≡ none
  pub no_backoff : w.cooldown_index ≡ 0
  pub no_probes : w.probe_successes ≡ 0

record Counted (w v : WedgeRecovery) (n : ℕ) : Type 0 where
  count : v.probe_successes ≡ w.probe_successes + n
  same_run : v.resume_after_probes ≡ w.resume_after_probes
  same_index : v.cooldown_index ≡ w.cooldown_index

one_probe :
    (t : ℕ) (w : WedgeRecovery)
    → w.probe_successes + 1 < w.resume_after_probes
    → Counted w (record_probe_success t w).0 1
unfolding record_probe_success
one_probe t w h = ground arith

probe_at-Counted :
    (ts : List ℕ) (w : WedgeRecovery)
    → w.probe_successes + length ts < w.resume_after_probes
    → Counted w (probe_at ts w) (length ts)
unfolding probe_at
probe_at-Counted [] w h = record { count = omega arith; same_run = refl; same_index = refl }
probe_at-Counted (t ∷ ts) w h =
    let first = one_probe t w (omega arith) in
    let rest = probe_at-Counted ts (record_probe_success t w).0 (omega (arith, first)) in
    record {
      count = omega (arith, first.count, rest.count);
      same_run = rest.same_run ∙ first.same_run;
      same_index = rest.same_index ∙ first.same_index;
    }

last_probe :
    (t later : ℕ) (v : WedgeRecovery)
    → t ≤ later
    → v.probe_successes < v.resume_after_probes
    → let (u, resumed) = record_probe_success t v in
      ((resumed ≡ true) × (v.probe_successes + 1 ≡ v.resume_after_probes) × IsCleared u)
      ⊎ ((resumed ≡ false)
          × (v.probe_successes + 1 < v.resume_after_probes)
          × (awaiting_probe later u ≡ true)
          × (in_cooldown later u ≡ false)
          × (u.cooldown_index ≡ v.cooldown_index))
unfolding record_probe_success awaiting_probe in_cooldown
last_probe t later v le h = elim (Bool-cases (leb v.resume_after_probes (v.probe_successes + 1))) [
  | inl e ↦ inl ground arith
  | inr e ↦ inr ground arith
]

-- After a cooldown began, whatever came before it, a good probe resumes polling if it completes a
-- run of `resume_after_probes` of them, and then the streak, the window, the back-off and the count
-- are cleared; if it does not, a probe is due from then on and the back-off is kept.
pub resumes_after_run :
    (now t later : ℕ) (ts : List ℕ) (w : WedgeRecovery)
    → length ts < w.resume_after_probes
    → t ≤ later
    → let v = probe_at ts (begin_cooldown now w).0 in
      let (u, resumed) = record_probe_success t v in
      ((resumed ≡ true) × (length ts + 1 ≡ w.resume_after_probes) × IsCleared u)
      ⊎ ((resumed ≡ false)
          × (length ts + 1 < w.resume_after_probes)
          × (awaiting_probe later u ≡ true)
          × (in_cooldown later u ≡ false)
          × (u.cooldown_index ≡ w.cooldown_index + 1))
unfolding begin_cooldown
resumes_after_run now t later ts w h le =
    let start = (begin_cooldown now w).0 in
    let counted = probe_at-Counted ts start (omega arith) in
    let last = last_probe t later (probe_at ts start) le (omega (arith, counted, h)) in
    elim last [
      | inl (r, n, cleared) ↦ inl (r, omega (arith, counted), cleared)
      | inr (r, n, due, off, same) ↦
          inr (r, omega (arith, counted), due, off, same ∙ counted.same_index)
    ]
