-- ===== src/Wedge/Phases.antt =====
-- The three states of the docstring: polling, in cooldown, probe due.
use r60v_home_assistant.Base.{ℕ, ◌+◌, ◌≡◌, refl, ◌⊎◌, true, false, ltb, leb, ◌-◌, none, arith}
use r60v_home_assistant.Wedge.{
  WedgeRecovery, in_cooldown, awaiting_probe, cooldown_remaining, begin_cooldown, step_at,
}

-- At any time the machine is in exactly one state: no window is set (polling), or it is in a
-- cooldown, or a probe is due.
pub one_phase :
    (now : ℕ) (w : WedgeRecovery)
    → ((w.cooldown_until ≡ none) × (in_cooldown now w ≡ false) × (awaiting_probe now w ≡ false))
      ⊎ ((in_cooldown now w ≡ true) × (awaiting_probe now w ≡ false))
      ⊎ ((in_cooldown now w ≡ false) × (awaiting_probe now w ≡ true))
unfolding in_cooldown awaiting_probe
one_phase now w = ground arith

-- A cooldown that begins at `now` is on until its step has passed, and a probe is due from then on;
-- the time that remains counts down to 0 at that moment.
cooldown_window :
    (now later : ℕ) (w : WedgeRecovery)
    → let end = now + step_at w.cooldown_steps w.cooldown_index in
      let v = (begin_cooldown now w).0 in
      (in_cooldown later v ≡ ltb later end)
      × (awaiting_probe later v ≡ leb end later)
      × (cooldown_remaining later v ≡ end - later)
unfolding in_cooldown awaiting_probe cooldown_remaining begin_cooldown
cooldown_window now later w = (refl, refl, ground arith)
