-- ===== src/Broker/Write/Heal.antt =====
-- What the store shows once an intent has been written, or has failed for good.
use r60v_home_assistant.Base.{
  ℕ, zero, suc, ◌+◌, ◌≤◌, ◌<◌, ◌≡◌, ◌≢◌, refl, sym, ap, subst, ◌∙◌, Bool, true, false, List, arith,
  length, get_elem?,
}
use r60v_home_assistant.Base.Int.{ℤ, pos}
use r60v_home_assistant.Base.Results.{Result, ok, err}
use r60v_home_assistant.Protocol.Frame.{Frame}
use r60v_home_assistant.Protocol.Address.{settings_base, settings_len}
use r60v_home_assistant.Governor.{Fault, connection, other}
use r60v_home_assistant.Store.{
  DeviceState, available, apply_optimistic, expectation, reconcile_clear, note_success,
  note_failure, update_settings, set_available, notify, apply_pending, overlay,
}
use r60v_home_assistant.Store.Overlay.{Distinct}
use r60v_home_assistant.Store.Overlay.Reconcile.{reconciled}
use r60v_home_assistant.Broker.{
  reads, Broker, World, await, Task, governor_read, broadcast, broadcast_if, ◌>>=◌, on_store,
  follow,
}
use r60v_home_assistant.Broker.Write.{
  attempts, retried, given_up, refreshed, reconcile, write_now, write_retries,
}

-- No other task touches the store meanwhile.
abbrev pub Alone : World → Type 0
Alone w = (k : ℕ) (s : DeviceState) → w.store_meanwhile k s ≡ s

-- No write ends with another exception than the client's own.
abbrev pub OnlyConnection : World → Type 0
OnlyConnection w = (k : ℕ) → w.write_reply k ≢ err other

-- The store is as it was, and there is a verdict on the write.
abbrev Wrote : DeviceState → Broker × Result Fault Bool → Type 0
Wrote s (t, r) = (t.store ≡ s) × ((wrote : Bool) × (r ≡ ok wrote))

module _ (w : World) (alone : Alone w) (only : OnlyConnection w) where
  given_up-Wrote :
      (s : DeviceState) (t : Broker) (r : Result Fault Frame)
      → t.store ≡ s
      → r ≢ err other
      → Wrote s (given_up (t, r))
  unfolding given_up
  given_up-Wrote s t (ok _) h n = (h, (true, refl))
  given_up-Wrote s t (err connection) h n = (h, (false, refl))
  given_up-Wrote s t (err other) h n = absurd (n refl)

  retried-Wrote :
      (s : DeviceState) (again : Task Bool) (t : Broker) (r : Result Fault Frame)
      → ((c : Broker) → c.store ≡ s → Wrote s (again c))
      → t.store ≡ s
      → r ≢ err other
      → Wrote s (retried w again (t, r))
  unfolding retried await
  retried-Wrote s again t (ok _) more h n = (h, (true, refl))
  retried-Wrote s again t (err connection) more h n = more _ (alone _ _ ∙ h)
  retried-Wrote s again t (err other) more h n = absurd (n refl)

  attempts-Wrote :
      (address : ℤ) (bytes : List ℤ) (n : ℕ) (s : DeviceState) (b : Broker)
      → b.store ≡ s
      → Wrote s (attempts w address bytes n b)
  unfolding attempts await
  attempts-Wrote address bytes zero s b h = given_up-Wrote s _ _ (alone _ _ ∙ h) (only b.awaits)
  attempts-Wrote address bytes (suc n) s b h =
      retried-Wrote s (attempts w address bytes n) _ _ (λ c e. attempts-Wrote address bytes n s c e)
        (alone _ _ ∙ h) (only b.awaits)

note_success-snapshot :
    (s : DeviceState)
    → ((note_success s).snapshot ≡ s.snapshot) × (available (note_success s) ≡ true)
unfolding note_success set_available notify available
note_success-snapshot s = ground arith

note_failure-pending : (s : DeviceState) → (note_failure s).pending ≡ s.pending
unfolding note_failure set_available notify
note_failure-pending s = ground arith

update_settings-overlay :
    (bytes : List ℤ) (s : DeviceState)
    → (update_settings bytes s).snapshot.settings ≡ overlay s.pending bytes
unfolding update_settings apply_pending notify
update_settings-overlay bytes s = refl

-- A store that is available and shows the bytes, save where an intent is pending.
abbrev Shows : List ℤ → DeviceState → DeviceState → Type 0
Shows polled s t = (t.snapshot.settings ≡ overlay s.pending polled) × (available t ≡ true)

refreshed_store :
    (polled : List ℤ) (s t : DeviceState)
    → t.pending ≡ s.pending
    → Shows polled s (note_success (update_settings polled t))
refreshed_store polled s t e =
    let u = note_success-snapshot (update_settings polled t) in
    (
      ap (λ x. x.settings) u.0 ∙ update_settings-overlay polled t ∙ ap (λ p. overlay p polled) e,
      u.1,
    )

module _ (w : World) (alone : Alone w) (polled : List ℤ)
    (answers : (k : ℕ) → w.read_reply k ≡ ok polled) where
  broadcast_if-store : (push : Bool) (b : Broker) → (broadcast_if push w b).store ≡ b.store
  unfolding broadcast_if await
  broadcast_if-store true b = alone b.awaits b.store
  broadcast_if-store false b = refl

  refreshed-Shows :
      (s : DeviceState) (b : Broker) (r : Result Fault (List ℤ))
      → r ≡ ok polled
      → b.store.pending ≡ s.pending
      → Shows polled s (refreshed w (b, r)).0.store
  unfolding refreshed broadcast
  refreshed-Shows s b r e h = rw e (
      subst (Shows polled s)
        (sym (
          broadcast_if-store b.push_enabled
            (on_store note_success (on_store (update_settings polled) b))))
        (refreshed_store polled s b.store h))

  read-Shows :
      (s : DeviceState) (b : Broker)
      → b.store.pending ≡ s.pending
      → Shows polled s
          (refreshed w (governor_read w (pos settings_base) (pos settings_len) b)).0.store
  unfolding await
  read-Shows s b h =
      refreshed-Shows s (await w (reads (pos settings_base) (pos settings_len)) b)
        (w.read_reply b.awaits) (answers b.awaits)
        (ap (λ x. x.pending) (alone b.awaits b.store) ∙ h)

  reconcile-Shows :
      (address : ℤ) (bytes : List ℤ) (wrote : Bool) (b : Broker)
      → Shows polled
          (reconcile_clear (expectation address bytes) b.store)
          (reconcile w address bytes wrote b).0.store
  unfolding reconcile
  reconcile-Shows address bytes true b =
      let cleared = on_store (reconcile_clear (expectation address bytes)) b in
      read-Shows cleared.store cleared refl
  reconcile-Shows address bytes false b =
      let cleared = on_store (reconcile_clear (expectation address bytes)) b in
      read-Shows cleared.store (on_store note_failure cleared) (note_failure-pending cleared.store)

  follow-Shows :
      (address : ℤ) (bytes : List ℤ) (s : DeviceState) (r : Broker × Result Fault Bool)
      → Wrote s r
      → Shows polled
          (reconcile_clear (expectation address bytes) s)
          (follow (reconcile w address bytes) r).0.store
  unfolding follow
  follow-Shows address bytes s (t, r) (h, (wrote, e)) = rw e (
      subst
        (λ x.
          Shows polled (reconcile_clear (expectation address bytes) x)
            (reconcile w address bytes wrote t).0.store)
        h (reconcile-Shows address bytes wrote t))

  write_now-Shows :
      OnlyConnection w
      → (address : ℤ) (bytes : List ℤ) (b : Broker)
      → Shows polled
          (reconcile_clear (expectation address bytes) b.store)
          (write_now w address bytes b).0.store
  unfolding write_now ◌>>=◌
  write_now-Shows only address bytes b =
      follow-Shows address bytes b.store _
        (attempts-Wrote w alone only address bytes write_retries b.store b refl)

-- An intent that the store took up is written, or given up after its retries; either way, when the
-- machine then answers the settings read, the store shows that answer at every address of the
-- intent and is available. This holds when no other task touches the store meanwhile and the write
-- raises nothing but the client's own connection error.
pub heals :
    (w : World) (a k : ℕ) (bytes polled : List ℤ) (s : DeviceState) (b : Broker)
    → Alone w
    → OnlyConnection w
    → ((i : ℕ) → w.read_reply i ≡ ok polled)
    → Distinct s.pending
    → apply_optimistic (pos a) bytes s ≡ (b.store, true)
    → a ≤ k
    → k < a + length bytes
    → (get_elem? (write_now w (pos a) bytes b).0.store.snapshot.settings k ≡ get_elem? polled k)
      × (available (write_now w (pos a) bytes b).0.store ≡ true)
heals w a k bytes polled s b alone only answers distinct took above under =
    let shown = write_now-Shows w alone polled answers only (pos a) bytes b in
    let cleared = reconcile_clear (expectation (pos a) bytes) b.store in
    let same = reconciled a k bytes polled s b.store distinct took above under in
    (
      ap (λ l. get_elem? l k) (shown.0 ∙ sym (update_settings-overlay polled cleared)) ∙ same,
      shown.1,
    )
