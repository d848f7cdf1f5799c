-- ===== src/Integration/Mirror.antt =====
-- The coordinator's cooldown beside the bridge's, of which it keeps a mirror.
use r60v_home_assistant.Base.{
  ℕ, ◌+◌, ◌≤◌, ◌≡◌, refl, ap, sym, ◌∙◌, inl, inr, if◌then◌else◌, Bool-cases, Bool, false, List, [],
  ◌∷◌, Option, arith, leb, ltb,
}
use r60v_home_assistant.Wedge.{
  WedgeRecovery, step_at, begin_cooldown, record_success, record_probe_success,
}
use r60v_home_assistant.Wedge
use r60v_home_assistant.Integration.Snapshot.{StateSnapshot}
use r60v_home_assistant.Integration.Coordinator.{
  Coordinator, in_cooldown, cooldown_remaining, enter_cooldown, clear_cooldown, probe_answered,
}
use r60v_home_assistant.Integration.Coordinator

-- What moves a cooldown, and when: it begins, a probe is answered, a read succeeds. No probe is
-- made while it is on.
pub data Move : Type 0 where
  begin : ℕ → Move
  probe : ℕ → Move
  good_read : ℕ → Move

abbrev time_of : Move → ℕ
time_of (begin now) = now
time_of (probe now) = now
time_of (good_read now) = now

move_bridge : Move → WedgeRecovery → WedgeRecovery
move_bridge (begin now) w = (begin_cooldown now w).0
move_bridge (probe now) w = if Wedge.in_cooldown now w then w else (record_probe_success now w).0
move_bridge (good_read now) w = record_success w

move_mirror : Move → Coordinator → Coordinator
move_mirror (begin now) c = enter_cooldown now c
move_mirror (probe now) c = if in_cooldown now c then c else (probe_answered c).0
move_mirror (good_read now) c = clear_cooldown c

-- The bridge's recovery and the coordinator after the moves, in this order.
unfoldable pub bridge_after : List Move → WedgeRecovery → WedgeRecovery
unfolding move_bridge
bridge_after [] w = w
bridge_after (m ∷ moves) w = bridge_after moves (move_bridge m w)

unfoldable pub mirror_after : List Move → Coordinator → Coordinator
unfolding move_mirror
mirror_after [] c = c
mirror_after (m ∷ moves) c = mirror_after moves (move_mirror m c)

-- The moves come in the order of time, from `start` on and none after `now`.
abbrev pub Timely : ℕ → ℕ → List Move → Type 0
Timely start now [] = start ≤ now
Timely start now (m ∷ moves) = (start ≤ time_of m) × Timely (time_of m) now moves

record Mirrors (now : ℕ) (w : WedgeRecovery) (c : Coordinator) : Type 0 where
  steps : w.cooldown_steps ≡ Coordinator.cooldown_steps
  run : w.resume_after_probes ≡ Coordinator.resume_after_probes
  index : w.cooldown_index ≡ c.cooldown_index
  probes : w.probe_successes ≡ c.probe_successes
  window : (later : ℕ) → now ≤ later → Wedge.in_cooldown later w ≡ in_cooldown later c

-- What holds from a time on holds from a later one on.
later-Mirrors :
    (start now : ℕ) (w : WedgeRecovery) (c : Coordinator)
    → start ≤ now
    → Mirrors start w c
    → Mirrors now w c
later-Mirrors start now w c le h = record {
  steps = h.steps;
  run = h.run;
  index = h.index;
  probes = h.probes;
  window = λ later le'. h.window later (omega arith);
}

fresh-Mirrors :
    (after : ℕ) (push success : Bool) (shown : Option StateSnapshot)
    → Mirrors 0
        (Wedge.init after Wedge.cooldown_steps_default Wedge.resume_after_probes_default)
        (Coordinator.init push success shown)
unfolding Wedge.init Coordinator.init
fresh-Mirrors after push success shown = record {
  steps = refl;
  run = refl;
  index = refl;
  probes = refl;
  window = λ later _. unfold Wedge.in_cooldown in_cooldown in refl;
}

begin-Mirrors :
    (start now : ℕ) (w : WedgeRecovery) (c : Coordinator)
    → Mirrors start w c
    → Mirrors now (begin_cooldown now w).0 (enter_cooldown now c)
unfolding begin_cooldown enter_cooldown Wedge.in_cooldown in_cooldown
begin-Mirrors start now w c h = record {
  steps = h.steps;
  run = h.run;
  index = ap (λ i. i + 1) h.index;
  probes = refl;
  window = λ later _. rw (h.steps) rw (h.index) refl;
}

good_read-Mirrors :
    (start now : ℕ) (w : WedgeRecovery) (c : Coordinator)
    → Mirrors start w c
    → Mirrors now (record_success w) (clear_cooldown c)
unfolding record_success clear_cooldown Wedge.in_cooldown in_cooldown
good_read-Mirrors start now w c h = record {
  steps = h.steps;
  run = h.run;
  index = refl;
  probes = refl;
  window = λ later _. refl;
}

not_before : (now later : ℕ) → now ≤ later → ltb later now ≡ false
not_before now later le = ground arith

-- A cooldown that is over stays so.
over_stays :
    (now later : ℕ) (c : Coordinator)
    → now ≤ later
    → in_cooldown now c ≡ false
    → in_cooldown later c ≡ false
unfolding in_cooldown
over_stays now later c le h = ground arith

same_test :
    {now : ℕ} {w : WedgeRecovery} {c : Coordinator}
    → Mirrors now w c
    → leb w.resume_after_probes (w.probe_successes + 1)
      ≡ leb Coordinator.resume_after_probes (c.probe_successes + 1)
same_test h = rw (h.run) rw (h.probes) refl

probe-Mirrors :
    (start now : ℕ) (w : WedgeRecovery) (c : Coordinator)
    → in_cooldown now c ≡ false
    → Mirrors start w c
    → Mirrors now (record_probe_success now w).0 (probe_answered c).0
unfolding record_probe_success record_success probe_answered clear_cooldown
probe-Mirrors start now w c over h =
    elim (Bool-cases (leb Coordinator.resume_after_probes (c.probe_successes + 1))) [
      | inl complete ↦ rw (same_test h ∙ complete) rw complete (record {
        steps = h.steps;
        run = h.run;
        index = refl;
        probes = refl;
        window = λ later _. unfold Wedge.in_cooldown in_cooldown in refl;
      })
      | inr partial ↦ rw (same_test h ∙ partial) rw partial (record {
        steps = h.steps;
        run = h.run;
        index = h.index;
        probes = ap (λ n. n + 1) h.probes;
        window = λ later le.
            unfold Wedge.in_cooldown in_cooldown in
            (not_before now later le ∙ sym (over_stays now later c le over));
      })
    ]

move-Mirrors :
    (start : ℕ) (m : Move) (w : WedgeRecovery) (c : Coordinator)
    → start ≤ time_of m
    → Mirrors start w c
    → Mirrors (time_of m) (move_bridge m w) (move_mirror m c)
unfolding move_bridge move_mirror
move-Mirrors start (begin now) w c le h = begin-Mirrors start now w c h
move-Mirrors start (good_read now) w c le h = good_read-Mirrors start now w c h
move-Mirrors start (probe now) w c le h = elim (Bool-cases (in_cooldown now c)) [
  | inl on ↦ rw (h.window now le ∙ on) rw on (later-Mirrors start now w c le h)
  | inr over ↦ rw (h.window now le ∙ over) rw over (probe-Mirrors start now w c over h)
]

moves-Mirrors :
    (moves : List Move) (start now : ℕ) (w : WedgeRecovery) (c : Coordinator)
    → Timely start now moves
    → Mirrors start w c
    → Mirrors now (bridge_after moves w) (mirror_after moves c)
unfolding bridge_after mirror_after
moves-Mirrors [] start now w c t h = later-Mirrors start now w c t h
moves-Mirrors (m ∷ moves) start now w c t h =
    moves-Mirrors moves (time_of m) now (move_bridge m w) (move_mirror m c) t.1
      (move-Mirrors start m w c t.0 h)

-- The coordinator's cooldown mirrors the bridge's: when both start with their own constants, and
-- the same moves reach them in the order of time, then from the last move on both are in a cooldown
-- at the same times, and stand at the same step of the schedule with the same run of probes.
pub mirrored :
    (moves : List Move) (after now : ℕ) (push success : Bool) (shown : Option StateSnapshot)
    → Timely 0 now moves
    → let w =
        bridge_after moves
          (Wedge.init after Wedge.cooldown_steps_default Wedge.resume_after_probes_default) in
      let c = mirror_after moves (Coordinator.init push success shown) in
      (Wedge.in_cooldown now w ≡ in_cooldown now c)
      × (w.cooldown_index ≡ c.cooldown_index)
      × (w.probe_successes ≡ c.probe_successes)
mirrored moves after now push success shown t =
    let h = moves-Mirrors moves 0 now _ _ t (fresh-Mirrors after push success shown) in
    (h.window now (omega arith), h.index, h.probes)
