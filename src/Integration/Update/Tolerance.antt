-- ===== src/Integration/Update/Tolerance.antt =====
-- An outage of the machine in the polling mode: cached values are served for a while, and then a
-- cooldown begins.
use r60v_home_assistant.Base.{
  ℕ, zero, suc, ◌+◌, ◌≤◌, ◌≡◌, refl, ap, sym, subst, ◌∙◌, inl, inr, true, false, Bool-cases, none,
  some, arith, ltb, leb, if◌then◌else◌,
}
use r60v_home_assistant.Base.Results.{ok, err}
use r60v_home_assistant.Integration.Snapshot.{StateSnapshot}
use r60v_home_assistant.Integration.Coordinator.{
  Coordinator, in_cooldown, bridge_blocking, enter_cooldown, cooldown_steps,
}
use r60v_home_assistant.Wedge.{step_at}
use r60v_home_assistant.Protocol.Address.{settings_base, settings_len}
use r60v_home_assistant.Integration.Update.Rest.{update_data-poll}
use r60v_home_assistant.Integration.Update.{
  World, Run, Ask, read_failed, lost, now, await, on, ◌>>=◌, refresh_bridge_health, poll,
  update_data, full_read, read_snapshot, fetched, finished, read_failed_at, tolerated, failing,
  enter,
}

-- The run after so many updates.
unfoldable pub after_updates : ℕ → World → Run → Run
after_updates zero w r = r
after_updates (suc k) w r = (update_data w (after_updates k w r)).0

-- The polling mode with a snapshot at hand, no report and no cooldown.
pub record Polling (c : Coordinator) (cached : StateSnapshot) : Type 0 where
  pub polls : c.push_enabled ≡ false
  pub has_data : c.data_now ≡ some cached
  pub no_report : c.bridge ≡ none
  pub no_cooldown : c.cooldown_until ≡ none
  pub fresh : c.cooldown_index ≡ 0

-- A machine that does not answer, and other tasks that leave the coordinator alone.
pub record Dead (w : World) : Type 0 where
  pub no_health : w.health_enabled ≡ false
  pub silent : (n : ℕ) → w.read_reply n ≡ err lost
  pub quiet : (n : ℕ) (c : Coordinator) → w.meanwhile n c ≡ c

-- The failed read, once it is counted.
handled :
    (w : World) (t : Run) (c : Coordinator) (cached : StateSnapshot)
    → failing t.coordinator ≡ c
    → c.data_now ≡ some cached
    → read_failed_at w t ≡ tolerated w (some cached) (record t { coordinator = c })
unfolding read_failed_at
handled w t c cached e held =
    ap (λ (d : Coordinator). tolerated w d.data_now (record t { coordinator = d })) e
    ∙ ap (λ o. tolerated w o (record t { coordinator = c })) held

asking : World → Run → Run
asking w r = await w (Ask.reads settings_base settings_len) r

module _ (w : World) (dead : Dead w) (r : Run) (cached : StateSnapshot)
    (p : Polling r.coordinator cached) where
  unasked : refresh_bridge_health w r ≡ r
  unfolding refresh_bridge_health
  unasked =
      ap (λ b. if b then on (fetched (w.health r.awaits)) (await w Ask.fetches r) else r)
        dead.no_health

  reading : poll w r ≡ full_read w r
  unfolding poll bridge_blocking in_cooldown
  reading = rw (p.no_report) rw (p.no_cooldown) rw (p.fresh) refl

  unanswered : read_snapshot w r ≡ (asking w r, err lost)
  unfolding read_snapshot ◌>>=◌ asking
  unanswered = rw (dead.silent r.awaits) refl

  -- The update fails at its first read.
  update_fails : update_data w r ≡ read_failed_at w (asking w r)
  unfolding full_read finished
  update_fails =
      update_data-poll w r p.polls ∙ (ap (poll w) unasked ∙ (reading ∙ ap (finished w) unanswered))

  unmoved : (asking w r).coordinator ≡ r.coordinator
  unfolding asking await
  unmoved = dead.quiet r.awaits r.coordinator

  one_more : Coordinator
  one_more = record r.coordinator { consecutive_failures = r.coordinator.consecutive_failures + 1 }

  counted : failing (asking w r).coordinator ≡ one_more
  unfolding failing one_more
  counted = ap failing unmoved

  now_failing :
      read_failed_at w (asking w r)
      ≡ tolerated w (some cached) (record (asking w r) { coordinator = one_more })
  unfolding one_more
  now_failing = handled w (asking w r) one_more cached counted p.has_data

  served :
      leb (r.coordinator.consecutive_failures + 1) 5 ≡ true
      → ((update_data w r).0.coordinator ≡ one_more) × ((update_data w r).1 ≡ ok cached)
  unfolding tolerated one_more
  served few =
      let e =
        update_fails
        ∙ (now_failing
            ∙ ap
                (λ b. if b then (record (asking w r) { coordinator = one_more }, ok cached) else (
                  enter w (await w Ask.closes (record (asking w r) { coordinator = one_more })),
                  err read_failed,
                ))
                few) in
      (ap (λ x. x.0.coordinator) e, ap (λ x. x.1) e)

  rested :
      leb (r.coordinator.consecutive_failures + 1) 5 ≡ false
      → ((update_data w r).0.coordinator ≡ enter_cooldown (now w (update_data w r).0) one_more)
        × ((update_data w r).1 ≡ err read_failed)
  unfolding tolerated one_more
  rested many =
      let t = await w Ask.closes (record (asking w r) { coordinator = one_more }) in
      let e =
        update_fails
        ∙ (now_failing
            ∙ ap
                (λ b.
                  if b
                  then (record (asking w r) { coordinator = one_more }, ok cached)
                  else (enter w t, err read_failed))
                many) in
      (
        ap (λ x. x.0.coordinator) e
            ∙ (unfold enter await in
                ap (enter_cooldown (now w t)) (dead.quiet (asking w r).awaits one_more)
                ∙ ap (λ x. enter_cooldown (now w x.0) one_more) (sym e)),
        ap (λ x. x.1) e,
      )

with_failures : ℕ → Coordinator → Coordinator
with_failures k c = record c { consecutive_failures = k }

counting-Polling :
    (c : Coordinator) (cached : StateSnapshot) (k : ℕ)
    → Polling c cached
    → Polling (with_failures k c) cached
unfolding with_failures
counting-Polling c cached k p = record {
  polls = p.polls;
  has_data = p.has_data;
  no_report = p.no_report;
  no_cooldown = p.no_cooldown;
  fresh = p.fresh;
}

counted_up :
    (k : ℕ) (c d : Coordinator)
    → d ≡ with_failures k c
    → record d { consecutive_failures = d.consecutive_failures + 1 } ≡ with_failures (k + 1) c
unfolding with_failures
counted_up k c d e =
    ap (λ (x : Coordinator). record x { consecutive_failures = x.consecutive_failures + 1 }) e

counts : (k : ℕ) (c d : Coordinator) → d ≡ with_failures k c → d.consecutive_failures ≡ k
unfolding with_failures
counts k c d e = ap (λ (x : Coordinator). x.consecutive_failures) e

outage_coordinator :
    (k : ℕ) (w : World) (r : Run) (cached : StateSnapshot)
    → Dead w
    → Polling r.coordinator cached
    → r.coordinator.consecutive_failures ≡ 0
    → k ≤ 5
    → (after_updates k w r).coordinator ≡ with_failures k r.coordinator
unfolding after_updates one_more
outage_coordinator zero w r cached dead p none_yet few =
    unfold with_failures in (ap (λ n. record r.coordinator { consecutive_failures = n }) none_yet)
outage_coordinator (suc k) w r cached dead p none_yet few =
    let s = after_updates k w r in
    let ih = outage_coordinator k w r cached dead p none_yet (omega arith) in
    let ps = subst (λ c. Polling c cached) (sym ih) (counting-Polling r.coordinator cached k p) in
    let n = counts k r.coordinator s.coordinator ih in
    (served w dead s cached ps (ground arith)).0
    ∙ (counted_up k r.coordinator s.coordinator ih
        ∙ ap (λ m. with_failures m r.coordinator) (omega arith))

-- When the machine stops answering, with no report on the bridge and no other task at work, each of
-- the next five updates gives the cached snapshot and begins no cooldown, and the sixth fails and
-- begins the first cooldown, of five minutes.
pub outage :
    (k : ℕ) (w : World) (r : Run) (cached : StateSnapshot)
    → Dead w
    → Polling r.coordinator cached
    → r.coordinator.consecutive_failures ≡ 0
    → k ≤ 5
    → let e = update_data w (after_updates k w r) in
      (e.1 ≡ (if ltb k 5 then ok cached else err read_failed))
      × (e.0.coordinator.cooldown_until ≡ (if ltb k 5 then none else some (now w e.0 + 300000)))
outage k w r cached dead p none_yet few =
    let s = after_updates k w r in
    let same = outage_coordinator k w r cached dead p none_yet few in
    let ps = subst (λ c. Polling c cached) (sym same) (counting-Polling r.coordinator cached k p) in
    let n = counts k r.coordinator s.coordinator same in
    elim (Bool-cases (ltb k 5)) [
      | inl before ↦
          let both = served w dead s cached ps (ground arith) in
          rw before (
            both.1,
            ap (λ (c : Coordinator). c.cooldown_until) both.0 ∙ unfold one_more in ps.no_cooldown,
          )
      | inr after ↦
          let both = rested w dead s cached ps (ground arith) in
          rw after (
            both.1,
            ap (λ (c : Coordinator). c.cooldown_until) both.0
                ∙ unfold enter_cooldown one_more step_at in
                  ap (λ i. some (now w (update_data w s).0 + step_at cooldown_steps i)) ps.fresh,
          )
    ]
