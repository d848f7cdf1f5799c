-- ===== src/Integration/Update/Rest.antt =====
-- When an update leaves the machine alone.
use r60v_home_assistant.Base.{
  ◌≡◌, refl, ap, sym, ◌∙◌, ◌⊎◌, inl, inr, Bool, true, false, Bool-cases, List, [], ◌∷◌, ◌++◌,
  append-nil,
}
use r60v_home_assistant.Base.Results.{Result, ok, err}
use r60v_home_assistant.Integration.Snapshot.{StateSnapshot}
use r60v_home_assistant.Integration.Coordinator.{Coordinator, in_cooldown, bridge_blocking}
use r60v_home_assistant.Integration.Update.{
  World, Run, Ask, fetches, closes, Failure, cooling, now, await, close_if_connected,
  refresh_bridge_health, poll, update_data, blocked, blocked_reason, seed, by_mode,
}

-- A question that is asked on a condition.
abbrev pub asked : Bool → Ask → List Ask
asked true ask = ask ∷ []
asked false ask = []

-- The turn of the other tasks at an `await` that happens on a condition.
abbrev pub meanwhile_if : Bool → World → Run → Coordinator
meanwhile_if true w r = w.meanwhile r.awaits r.coordinator
meanwhile_if false w r = r.coordinator

closing-log :
    (w : World) (r : Run)
    → ((close_if_connected w r).log ≡ r.log ++ asked (w.link_up r.awaits) closes)
      × ((close_if_connected w r).coordinator ≡ meanwhile_if (w.link_up r.awaits) w r)
unfolding close_if_connected await
closing-log w r = elim (Bool-cases (w.link_up r.awaits)) [
  | inl up ↦ rw up (refl, refl)
  | inr down ↦ rw down (sym (append-nil r.log), refl)
]

refreshing-log :
    (w : World) (r : Run)
    → (refresh_bridge_health w r).log ≡ r.log ++ asked w.health_enabled fetches
unfolding refresh_bridge_health await
refreshing-log w r = elim (Bool-cases w.health_enabled) [
  | inl enabled ↦ rw enabled refl
  | inr disabled ↦ rw disabled (sym (append-nil r.log))
]

-- An update in push mode asks for the bridge's health at most, and gives the data that is there.
pub push-thin :
    (w : World) (r : Run)
    → r.coordinator.push_enabled ≡ true
    → ((update_data w r).0.log ≡ r.log ++ asked w.health_enabled fetches)
      × ((update_data w r).1 ≡ ok (seed (refresh_bridge_health w r).coordinator.data_now))
unfolding update_data by_mode
push-thin w r h =
    let e = ap (λ m. by_mode w m (refresh_bridge_health w r)) h in
    (ap (λ x. x.0.log) e ∙ refreshing-log w r, ap (λ x. x.1) e)

pub update_data-poll :
    (w : World) (r : Run)
    → r.coordinator.push_enabled ≡ false
    → update_data w r ≡ poll w (refresh_bridge_health w r)
unfolding update_data by_mode
update_data-poll w r h = ap (λ m. by_mode w m (refresh_bridge_health w r)) h

-- What an update that rests does: it closes the link if it is up, and gives no snapshot.
record Rests (w : World) (t : Run) (e : Run × Result Failure StateSnapshot) : Type 0 where
  pub asks : e.0.log ≡ t.log ++ asked (w.link_up t.awaits) closes
  pub keeps : e.0.coordinator ≡ meanwhile_if (w.link_up t.awaits) w t
  pub gives : (failure : Failure) × (e.1 ≡ err failure)

poll-Rests :
    (w : World) (t : Run)
    → (bridge_blocking t.coordinator ≡ true) ⊎ (in_cooldown (now w t) t.coordinator ≡ true)
    → Rests w t (poll w t)
unfolding poll blocked
poll-Rests w t (inl h) = rw h (record {
  asks = (closing-log w t).0;
  keeps = (closing-log w t).1;
  gives = (blocked_reason (close_if_connected w t).coordinator.bridge, refl);
})
poll-Rests w t (inr h) = elim (Bool-cases (bridge_blocking t.coordinator)) [
  | inl also ↦ rw also (record {
    asks = (closing-log w t).0;
    keeps = (closing-log w t).1;
    gives = (blocked_reason (close_if_connected w t).coordinator.bridge, refl);
  })
  | inr fine ↦
      rw fine rw h (record {
        asks = (closing-log w t).0;
        keeps = (closing-log w t).1;
        gives = (cooling, refl);
      })
]

-- While a usable report blames the link, or a cooldown is on, an update of the polling mode asks
-- nothing of the machine: at most it asks for the bridge's health and closes the link. It counts no
-- failure and moves no cooldown, as all that changes the coordinator after the report is what the
-- other tasks do, and it fails.
pub update_data-Rests :
    (w : World) (r : Run)
    → r.coordinator.push_enabled ≡ false
    → (bridge_blocking (refresh_bridge_health w r).coordinator ≡ true)
      ⊎ (in_cooldown (now w (refresh_bridge_health w r)) (refresh_bridge_health w r).coordinator
          ≡ true)
    → let t = refresh_bridge_health w r in
      let e = update_data w r in
      (e.0.log ≡ (r.log ++ asked w.health_enabled fetches) ++ asked (w.link_up t.awaits) closes)
      × (e.0.coordinator ≡ meanwhile_if (w.link_up t.awaits) w t)
      × ((failure : Failure) × (e.1 ≡ err failure))
update_data-Rests w r polling h =
    let t = refresh_bridge_health w r in
    let rests = poll-Rests w t h in
    let e = update_data-poll w r polling in
    (
      ap (λ x. x.0.log) e
          ∙ (rests.asks ∙ ap (λ l. l ++ asked (w.link_up t.awaits) closes) (refreshing-log w r)),
      ap (λ x. x.0.coordinator) e ∙ rests.keeps,
      (rests.gives.0, ap (λ x. x.1) e ∙ rests.gives.1),
    )
