-- ===== src/Store/Easing.antt =====
-- The interpolation of stale boiler temperatures: each nudge is bounded, and nudges settle.
use r60v_home_assistant.Base.{
  ℕ, zero, suc, ◌+◌, ◌*◌, ◌<◌, ◌≡◌, ◌≢◌, refl, ◌∙◌, ap, ◌⊎◌, inl, inr, Bool, true, false, not,
  Option, none, some, List, [], ◌∷◌, arith, ltb, ◌==◌, if◌then◌else◌,
}
use r60v_home_assistant.Base.Int.{
  ℤ, pos, ◌+ℤ◌, ◌-ℤ◌, ◌≤ℤ◌, min_ℤ, max_ℤ, eq_of_parts, int_laws, min_ℤ-cases, max_ℤ-cases,
}
use r60v_home_assistant.Base.Dict.{get-put}
use r60v_home_assistant.Base.Dict
use r60v_home_assistant.Protocol.Address.{
  standby, service_boiler_enable, brew_boiler_temp, service_boiler_temp, current_brew_temp,
  current_service_temp,
}
use r60v_home_assistant.State.Snapshot.{settings_byte}
use r60v_home_assistant.Store.{DeviceState, eased, ease_found, ease, interpolate_live_temps}

-- The clamped step, by the three cases of `max(-step, min(step, gap))`.
clamp_cases :
    (step : ℕ) (gap : ℤ)
    → let c = max_ℤ (pos 0 -ℤ pos step) (min_ℤ (pos step) gap) in
      ((pos step ≤ℤ gap) × (c ≡ pos step))
      ⊎ ((gap +ℤ pos step ≤ℤ pos 0) × (c ≡ pos 0 -ℤ pos step))
      ⊎ ((gap ≤ℤ pos step) × (pos 0 ≤ℤ gap +ℤ pos step) × (c ≡ gap))
clamp_cases step gap = elim (min_ℤ-cases (pos step) gap) [
  | inl (h, e) ↦ rw e (elim (max_ℤ-cases (pos 0 -ℤ pos step) (pos step)) [
    | inl (k, e') ↦ inl (h, e' ∙ eq_of_parts (pos 0 -ℤ pos step) (pos step) (omega int_laws))
    | inr (k, e') ↦ inl (h, e')
  ])
  | inr (h, e) ↦ rw e (elim (max_ℤ-cases (pos 0 -ℤ pos step) gap) [
    | inl (k, e') ↦ inr (inl (omega int_laws, e'))
    | inr (k, e') ↦ inr (inr (h, omega int_laws, e'))
  ])
]

-- Three ways for a nudge: a full step up, a full step down, or onto the target.
eased_cases :
    (step : ℕ) (current target : ℤ)
    → let e = eased step current target in
      ((current +ℤ pos step ≤ℤ target) × (e ≡ current +ℤ pos step))
      ⊎ ((target +ℤ pos step ≤ℤ current) × (e ≡ current -ℤ pos step))
      ⊎ ((target ≤ℤ current +ℤ pos step) × (current ≤ℤ target +ℤ pos step) × (e ≡ target))
unfolding eased
eased_cases step current target = elim (clamp_cases step (target -ℤ current)) [
  | inl (h, c) ↦ inl (omega int_laws, ap (λ d. current +ℤ d) c)
  | inr (inl (h, c)) ↦ inr (
      inl (
        omega int_laws,
        ap (λ d. current +ℤ d) c
            ∙ eq_of_parts (current +ℤ (pos 0 -ℤ pos step)) (current -ℤ pos step) (omega int_laws),
      ))
  | inr (inr (h, k, c)) ↦ inr (
      inr (
        omega int_laws,
        omega int_laws,
        ap (λ d. current +ℤ d) c
            ∙ eq_of_parts (current +ℤ (target -ℤ current)) target (omega int_laws),
      ))
]

-- What one nudge promises.
record IsNudge (step : ℕ) (current target e : ℤ) : Type 0 where
  pub up : current ≤ℤ target → (current ≤ℤ e) × (e ≤ℤ target) × (e ≤ℤ current +ℤ pos step)
  pub down : target ≤ℤ current → (e ≤ℤ current) × (target ≤ℤ e) × (current ≤ℤ e +ℤ pos step)
  pub arrives : target ≤ℤ current +ℤ pos step → current ≤ℤ target +ℤ pos step → e ≡ target

≤ℤ_total : (x y : ℤ) → (x ≤ℤ y) ⊎ (y ≤ℤ x)
≤ℤ_total x y = ground arith

eased-IsNudge :
    (step : ℕ) (current target : ℤ) → IsNudge step current target (eased step current target)
eased-IsNudge step current target = elim (eased_cases step current target) [
  | inl (h, e) ↦ rw e (record {
    up = λ k. omega int_laws;
    down = λ k. omega int_laws;
    arrives = λ k l. eq_of_parts (current +ℤ pos step) target (omega int_laws);
  })
  | inr (inl (h, e)) ↦ rw e (record {
    up = λ k. omega int_laws;
    down = λ k. omega int_laws;
    arrives = λ k l. eq_of_parts (current -ℤ pos step) target (omega int_laws);
  })
  | inr (inr (h, h', e)) ↦
      rw e (record { up = λ k. omega int_laws; down = λ k. omega int_laws; arrives = λ k l. refl })
]

-- A nudge takes a step off the gap.
nearer :
    (step gap : ℕ) (current target : ℤ)
    → target ≤ℤ current +ℤ pos (step + gap)
    → current ≤ℤ target +ℤ pos (step + gap)
    → let e = eased step current target in (target ≤ℤ e +ℤ pos gap) × (e ≤ℤ target +ℤ pos gap)
nearer step gap current target h k = elim (eased_cases step current target) [
  | inl (l, e) ↦ rw e (omega int_laws, omega int_laws)
  | inr (inl (l, e)) ↦ rw e (omega int_laws, omega int_laws)
  | inr (inr (l, l', e)) ↦ rw e (omega int_laws, omega int_laws)
]

unfoldable pub nudges : ℕ → ℕ → ℤ → ℤ → ℤ
nudges zero step target current = current
nudges (suc n) step target current = nudges n step target (eased step current target)

-- One nudge moves the reading towards the setpoint, by at most the step and never past it.
eased_towards :
    (step : ℕ) (current target : ℤ)
    → let e = eased step current target in
      ((current ≤ℤ e) × (e ≤ℤ target) × (e ≤ℤ current +ℤ pos step))
      ⊎ ((e ≤ℤ current) × (target ≤ℤ e) × (current ≤ℤ e +ℤ pos step))
eased_towards step current target =
    let n = eased-IsNudge step current target in
    elim (≤ℤ_total current target) [ inl h ↦ inl (n.up h) | inr h ↦ inr (n.down h) ]

-- Any reading settles on the setpoint, once the nudges add up to the gap, and stays there.
nudges-settle :
    (n step : ℕ) (current target : ℤ)
    → target ≤ℤ current +ℤ pos (n * step)
    → current ≤ℤ target +ℤ pos (n * step)
    → nudges n step target current ≡ target
unfolding nudges
nudges-settle zero step current target h k = eq_of_parts current target (omega int_laws)
nudges-settle (suc n) step current target h k =
    let count : suc n * step ≡ step + n * step = omega arith in
    let (below, above) =
      nearer step (n * step) current target (rw (← count) (h)) (rw (← count) (k)) in
    nudges-settle n step (eased step current target) target below above

-- With no data, with a fresh reading, or on standby, no temperature is made up.
interpolate_idle :
    (now : ℕ) (s : DeviceState)
    → (s.have_data ≡ false)
      ⊎ (now < s.last_live_update_at + s.stale_after)
      ⊎ (settings_byte standby s.snapshot ≢ 0)
    → interpolate_live_temps now s ≡ s
unfolding interpolate_live_temps
interpolate_idle now s h = ground arith

-- What a nudge leaves alone.
record Keeps (s t : DeviceState) : Type 0 where
  pub settings_kept : t.snapshot.settings ≡ s.snapshot.settings
  pub verdict_kept : t.verdict ≡ s.verdict
  pub pending_kept : t.pending ≡ s.pending
  pub calls_kept : t.calls ≡ s.calls
  pub others_kept :
      (address : ℕ)
      → address ≢ current_brew_temp
      → address ≢ current_service_temp
      → Dict.get address t.snapshot.live ≡ Dict.get address s.snapshot.live

ease_found-Keeps :
    (found : Option (List ℤ)) (live setpoint : ℕ) (s : DeviceState)
    → (live ≡ current_brew_temp) ⊎ (live ≡ current_service_temp)
    → Keeps s (ease_found found live setpoint s)
unfolding ease_found
ease_found-Keeps none live setpoint s h = ground arith
ease_found-Keeps (some []) live setpoint s h = ground arith
ease_found-Keeps (some (current ∷ more)) live setpoint s h = record {
  settings_kept = ground arith;
  verdict_kept = ground arith;
  pending_kept = ground arith;
  calls_kept = ground arith;
  others_kept = λ address n m. ground (
    arith,
    get-put live address
        (eased s.interpolate_step current (pos (settings_byte setpoint s.snapshot)) ∷ [])
        s.snapshot.live,
  );
}

ease-Keeps :
    (live setpoint : ℕ) (s : DeviceState)
    → (live ≡ current_brew_temp) ⊎ (live ≡ current_service_temp)
    → Keeps s (ease live setpoint s)
unfolding ease
ease-Keeps live setpoint s h = ease_found-Keeps (Dict.get live s.snapshot.live) live setpoint s h

Keeps-refl : (s : DeviceState) → Keeps s s
Keeps-refl s = ground arith

Keeps-trans : (s t u : DeviceState) → Keeps s t → Keeps t u → Keeps s u
Keeps-trans s t u h k = record {
  settings_kept = k.settings_kept ∙ h.settings_kept;
  verdict_kept = k.verdict_kept ∙ h.verdict_kept;
  pending_kept = k.pending_kept ∙ h.pending_kept;
  calls_kept = k.calls_kept ∙ h.calls_kept;
  others_kept = λ address n m. k.others_kept address n m ∙ h.others_kept address n m;
}

if-Keeps : (b : Bool) (s t u : DeviceState) → Keeps s t → Keeps s u → Keeps s (if b then t else u)
if-Keeps true s t u h k = h
if-Keeps false s t u h k = k

interpolate-Keeps : (now : ℕ) (s : DeviceState) → Keeps s (interpolate_live_temps now s)
unfolding interpolate_live_temps
interpolate-Keeps now s =
    let same = Keeps-refl s in
    let t = ease current_brew_temp brew_boiler_temp s in
    let brew = ease-Keeps current_brew_temp brew_boiler_temp s (inl refl) in
    let steam = ease-Keeps current_service_temp service_boiler_temp t (inr refl) in
    if-Keeps (not s.have_data) s _ _ same (
      if-Keeps (ltb now (s.last_live_update_at + s.stale_after)) s _ _ same (
        if-Keeps (not (settings_byte standby s.snapshot == 0)) s _ _ same (
          if-Keeps (settings_byte service_boiler_enable t.snapshot == 0) s _ _ brew
            (Keeps-trans s t (ease current_service_temp service_boiler_temp t) brew steam))))

-- Interpolation changes the two boiler readings at most: every other live register, the settings,
-- the verdict, the pending intents and the calls of the listeners are as before.
interpolated :
    (now address : ℕ) (s : DeviceState)
    → address ≢ current_brew_temp
    → address ≢ current_service_temp
    → let t = interpolate_live_temps now s in
      (Dict.get address t.snapshot.live ≡ Dict.get address s.snapshot.live)
      × (t.snapshot.settings ≡ s.snapshot.settings)
      × (t.verdict ≡ s.verdict)
      × (t.pending ≡ s.pending)
      × (t.calls ≡ s.calls)
interpolated now address s n m =
    let k = interpolate-Keeps now s in
    (k.others_kept address n m, k.settings_kept, k.verdict_kept, k.pending_kept, k.calls_kept)
