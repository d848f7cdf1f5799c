-- ===== src/Wedge/Backoff.antt =====
-- The streak clock and the lengthening back-off.
use native.Mathlib.Nat.{add-zero}
use r60v_home_assistant.Base.{
  ℕ, zero, suc, ◌+◌, ◌≤◌, ◌<◌, ◌≡◌, refl, ◌∙◌, ap, false, none, some, List, [], ◌∷◌, arith, leb,
  min, length, get_elem?,
}
use r60v_home_assistant.Wedge.{
  WedgeRecovery, cooldown_steps_default, record_success, record_failure, wedged, step_from, step_at,
  begin_cooldown,
}

-- Failures at the given times, oldest first.
unfoldable pub fail_at : List ℕ → WedgeRecovery → WedgeRecovery
fail_at [] w = w
fail_at (t ∷ ts) w = fail_at ts (record_failure t w)

fail_at-first :
    (t : ℕ) (ts : List ℕ) (w : WedgeRecovery)
    → w.first_fail_at ≡ some t
    → ((fail_at ts w).first_fail_at ≡ some t) × ((fail_at ts w).wedge_after ≡ w.wedge_after)
unfolding fail_at
fail_at-first t [] w h = (h, refl)
fail_at-first t (t' ∷ ts) w h =
    let next : (record_failure t' w).first_fail_at ≡ some t =
      unfold record_failure in ground arith in
    let (a, b) = fail_at-first t ts (record_failure t' w) next in
    (a, b ∙ unfold record_failure in refl)

-- A streak of failures counts as a wedge exactly when `wedge_after` has passed since its first
-- failure, however many failures follow it; a success ends the streak.
wedged-fail_at :
    (now t : ℕ) (ts : List ℕ) (w : WedgeRecovery)
    → w.first_fail_at ≡ none
    → (wedged now (fail_at (t ∷ ts) w) ≡ leb (t + w.wedge_after) now)
      × (wedged now (record_success (fail_at (t ∷ ts) w)) ≡ false)
unfolding fail_at wedged record_success
wedged-fail_at now t ts w h =
    let first : (record_failure t w).first_fail_at ≡ some t =
      unfold record_failure in ground arith in
    let kept : (record_failure t w).wedge_after ≡ w.wedge_after = unfold record_failure in refl in
    ground (arith, fail_at-first t ts (record_failure t w) first)

min_zero : (i : ℕ) → min i 0 ≡ 0
min_zero i = omega arith

zero_min : (n : ℕ) → min 0 n ≡ 0
zero_min n = omega arith

min-suc : (i n : ℕ) → min (suc i) (suc n) ≡ suc (min i n)
min-suc i n = omega arith

step_from-get_elem? :
    (first : ℕ) (rest : List ℕ) (i : ℕ)
    → get_elem? (first ∷ rest) (min i (length rest)) ≡ some (step_from first rest i)
unfolding step_from
step_from-get_elem? first [] zero = refl
step_from-get_elem? first [] (suc i) = rw (min_zero (suc i))
step_from-get_elem? first (next ∷ rest) zero = rw (zero_min (suc (length rest)))
step_from-get_elem? first (next ∷ rest) (suc i) =
    rw (min-suc i (length rest)) (step_from-get_elem? next rest i)

-- The step is the element at the index, and the last element once the index is past the end.
step_at-get_elem? :
    (first : ℕ) (rest : List ℕ) (i : ℕ)
    → get_elem? (first ∷ rest) (min i (length rest)) ≡ some (step_at (first, rest) i)
unfolding step_at
step_at-get_elem? first rest i = step_from-get_elem? first rest i

-- One cooldown after another, each begun at its time, oldest first; the steps that were returned.
unfoldable pub cooldowns : List ℕ → WedgeRecovery → List ℕ
cooldowns [] w = []
cooldowns (t ∷ ts) w = let (v, step) = begin_cooldown t w in step ∷ cooldowns ts v

-- The k-th of a row of cooldowns lasts the k-th step of the schedule, counted on from the index.
cooldowns-schedule :
    (ts : List ℕ) (k : ℕ) (w : WedgeRecovery)
    → k < length ts
    → get_elem? (cooldowns ts w) k ≡ some (step_at w.cooldown_steps (w.cooldown_index + k))
unfolding cooldowns begin_cooldown
cooldowns-schedule [] k w h = elim h [ ]
cooldowns-schedule (t ∷ ts) zero w h = rw (add-zero w.cooldown_index)
cooldowns-schedule (t ∷ ts) (suc k) w h =
    cooldowns-schedule ts k (begin_cooldown t w).0 (omega arith)
    ∙ ap (λ i. some (step_at w.cooldown_steps i)) (omega arith)

-- The default schedule never shortens, and every rest is between five and thirty minutes.
step_at-default :
    (i : ℕ)
    → (step_at cooldown_steps_default i ≤ step_at cooldown_steps_default (suc i))
      × (300000 ≤ step_at cooldown_steps_default i)
      × (step_at cooldown_steps_default i ≤ 1800000)
unfolding step_at
step_at-default zero = omega arith
step_at-default (suc zero) = omega arith
step_at-default (suc (suc zero)) = omega arith
step_at-default (suc (suc (suc zero))) = omega arith
step_at-default (suc (suc (suc (suc i)))) = omega arith
