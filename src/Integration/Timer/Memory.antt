-- ===== src/Integration/Timer/Memory.antt =====
-- A timer switch remembers the time of its timer.
use r60v_home_assistant.Base.{
  ◌+◌, ◌≤◌, ◌≡◌, refl, ap, subst, ◌∙◌, true, none, some, List, [], ◌∷◌, ◌++◌, arith, leb, All,
  length,
}
use r60v_home_assistant.Base.Int.{pos}
use r60v_home_assistant.State.Entities.{two_digits}
use r60v_home_assistant.State.Entities.RoundTrip.{int_dec-two_digits, two_digits-IsPlain}
use r60v_home_assistant.Integration.Snapshot.{StateSnapshot, after}
use r60v_home_assistant.Integration.Entities.{ClockTime, IsClock, IsSetting, timer_time}
use r60v_home_assistant.Integration.Entities.Codecs.{timer_time-encode_timer, timer_time-IsSetting}
use r60v_home_assistant.Integration.Profile.Words.{parts-step}
use r60v_home_assistant.Integration.Stream.Keys.{int_dec}
use r60v_home_assistant.Integration.Timer.{
  TimerSwitch, snapshot_time, configured_time, remember, handle_update, time_from, time_of_parts,
  stored_time, restore, added, turn_on,
}

-- The updates of the coordinator that the switch sees, in order.
abbrev pub updated : List StateSnapshot → TimerSwitch → TimerSwitch
updated [] t = t
updated (s ∷ ss) t = updated ss (handle_update s t)

-- Some other snapshots in which the timer is disabled change nothing.
updated-disabled :
    (ss : List StateSnapshot) (t : TimerSwitch)
    → All (λ s. snapshot_time s t ≡ none) ss
    → updated ss t ≡ t
unfolding handle_update
updated-disabled [] t h = refl
updated-disabled (s ∷ ss) t h =
    ap (λ c. updated ss (remember c t)) h.0 ∙ unfold remember in updated-disabled ss t h.1

stored_time-printed :
    (c : ClockTime)
    → IsClock c
    → stored_time (some (two_digits c.hour ++ b':' ∷ two_digits c.minute)) ≡ some c
unfolding stored_time time_of_parts
stored_time-printed c valid =
    let h : leb c.hour 23 ≡ true = ground (arith, valid.0) in
    let m : leb c.minute 59 ≡ true = ground (arith, valid.1) in
    ap time_of_parts (
      parts-step _ _ (two_digits-IsPlain c.hour (omega (arith, valid.0)))
        (two_digits-IsPlain c.minute (omega (arith, valid.1))))
    ∙ (ap (λ a. time_from a (int_dec (two_digits c.minute)))
          (int_dec-two_digits c.hour (omega (arith, valid.0)))
        ∙ (ap (time_from (some (pos c.hour))) (int_dec-two_digits c.minute (omega (arith, valid.1)))
            ∙ (unfold time_from in rw (h, m) refl)))

added-stored :
    (now : StateSnapshot) (t : TimerSwitch) (c : ClockTime)
    → IsClock c
    → snapshot_time now t ≡ none
    → added now (some (two_digits c.hour ++ b':' ∷ two_digits c.minute)) t
      ≡ record t { configured = c }
unfolding added restore
added-stored now t c valid off =
    ap (λ o. restore o (some (two_digits c.hour ++ b':' ∷ two_digits c.minute)) t) off
    ∙ ap (λ o. remember o t) (stored_time-printed c valid)
    ∙ unfold remember in refl

-- A switch that saw its timer at a time remembers it while the timer is disabled, and across a
-- restart of Home Assistant, which stores its attribute and creates the switch anew: turned on
-- then, it writes what the timer reads as that time. The settings block is long enough.
pub timer-remembers :
    (seen now : StateSnapshot) (later : List StateSnapshot) (t fresh : TimerSwitch) (c : ClockTime)
    → snapshot_time seen t ≡ some c
    → All (λ s. snapshot_time s t ≡ none) later
    → snapshot_time now fresh ≡ none
    → fresh.minute_address ≡ fresh.hour_address + 1
    → fresh.hour_address + 2 ≤ length now.settings
    → snapshot_time
        (after (turn_on (added now (some (configured_time (updated (seen ∷ later) t))) fresh)) now)
        fresh
      ≡ some c
unfolding turn_on snapshot_time handle_update configured_time
timer-remembers seen now later t fresh c saw off off' adjacent fits =
    let valid : IsClock c =
      subst IsSetting saw (timer_time-IsSetting t.hour_address t.minute_address seen) in
    let kept : updated (seen ∷ later) t ≡ record t { configured = c } =
      ap (λ o. updated later (remember o t)) saw
      ∙ (unfold remember in updated-disabled later (record t { configured = c }) off) in
    let back =
      ap (λ (u : TimerSwitch). added now (some (configured_time u)) fresh) kept
      ∙ added-stored now fresh c valid off' in
    ap (λ u. snapshot_time (after (turn_on u) now) fresh) back
    ∙ (ap
          (λ m.
            timer_time fresh.hour_address m (after (turn_on (record fresh { configured = c })) now))
          adjacent
        ∙ timer_time-encode_timer now fresh.hour_address (some c) valid fits)
