-- ===== src/Broker/Poll/Cooldown.antt =====
-- A cooldown is a time without the machine: it leaves the device alone, and the store says so.
use r60v_home_assistant.Base.{
  ℕ, ◌+◌, ◌≡◌, refl, ap, ◌∙◌, ◌⊎◌, inl, inr, Bool, true, false, not, ◌&&◌, ◌||◌, ◌%◌, ◌==◌, none,
  List, [], ◌∷◌, arith, Bool-cases, leb,
}
use r60v_home_assistant.Base.Int.{ℤ, pos}
use r60v_home_assistant.Base.Results.{Result, ok, err}
use r60v_home_assistant.State.Snapshot.{live_registers}
use r60v_home_assistant.Store.{
  DeviceState, raw_snapshot, available, note_wedged, note_failure, update_settings, set_available,
  notify, apply_pending,
}
use r60v_home_assistant.Wedge.{
  WedgeRecovery, record_success, record_failure, record_probe_success, begin_cooldown, wedged,
  in_cooldown, awaiting_probe,
}
use r60v_home_assistant.Protocol.Address.{settings_base, settings_len}
use r60v_home_assistant.Governor.{Fault}
use r60v_home_assistant.Broker.{
  Action, closes, broadcasts, Broker, World, now, await, broadcast, broadcast_if, on_store,
  on_wedge, governor_read,
}
use r60v_home_assistant.Broker.Tasks.{Keeps, bind-Keeps, then-Keeps}
use r60v_home_assistant.Wedge.Phases.{one_phase}
use r60v_home_assistant.Broker.Poll.{
  settings_part, rest_device, read_settings_block, read_live_registers, poll_reads, cycle_failed,
  ended, poll_once, confirmed, after_probe, link_probed, probe_link, probe, touch_device, active,
  poll_turn, Cadence, wants_data,
}

-- No cooldown and no probe is due, or the store is offline.
abbrev pub Rested : Broker → Type 0
Rested b = (b.wedge.cooldown_until ≡ none) ⊎ (available b.store ≡ false)

abbrev Offline : Broker → Type 0
Offline b = available b.store ≡ false

abbrev Polling : Broker → Type 0
Polling b = b.wedge.cooldown_until ≡ none

-- The wedge state is the poll loop's alone.
abbrev pub OwnsWedge : World → Type 0
OwnsWedge w = (k : ℕ) (v : WedgeRecovery) → w.wedge_meanwhile k v ≡ v

-- While the poll loop waits, no other task reports a success to a store that is offline.
abbrev pub StaysOffline : World → Type 0
StaysOffline w =
    (k : ℕ) (s : DeviceState) → available s ≡ false → available (w.store_meanwhile k s) ≡ false

note_wedged-available : (s : DeviceState) → available (note_wedged s) ≡ false
unfolding note_wedged set_available notify available
note_wedged-available s = ground arith

note_failure-available :
    (s : DeviceState) → available s ≡ false → available (note_failure s) ≡ false
unfolding note_failure set_available notify available
note_failure-available s h = ground arith

update_settings-available :
    (bytes : List ℤ) (s : DeviceState) → available (update_settings bytes s) ≡ available s
unfolding update_settings notify available apply_pending
update_settings-available bytes s = refl

module _ (w : World) (owns : OwnsWedge w) where
  await-wedge : (a : Action) (b : Broker) → (await w a b).wedge ≡ b.wedge
  unfolding await
  await-wedge a b = owns b.awaits b.wedge

  await-Rested : StaysOffline w → (a : Action) (b : Broker) → Rested b → Rested (await w a b)
  unfolding await
  await-Rested quiet a b (inl h) = inl (ap (λ v. v.cooldown_until) (owns b.awaits b.wedge) ∙ h)
  await-Rested quiet a b (inr h) = inr (quiet b.awaits b.store h)

  await-Polling : (a : Action) (b : Broker) → Polling b → Polling (await w a b)
  unfolding await
  await-Polling a b h = ap (λ v. v.cooldown_until) (owns b.awaits b.wedge) ∙ h

  settings-Polling : (read_settings : Bool) → Keeps Polling (settings_part w read_settings)
  unfolding settings_part read_settings_block
  settings-Polling true = bind-Keeps Polling _ _ (λ b h. await-Polling _ b h) (λ bytes b h. h)
  settings-Polling false = λ b h. h

  live-Polling : (rs : List (ℕ × ℕ)) → Keeps Polling (read_live_registers w rs)
  unfolding read_live_registers
  live-Polling [] = λ b h. h
  live-Polling ((address, count) ∷ rest) =
      bind-Keeps Polling _ _ (λ b h. await-Polling _ b h)
        (λ bytes. then-Keeps Polling _ _ (λ b h. h) (live-Polling rest))

  poll_reads-Polling : (read_settings : Bool) → Keeps Polling (poll_reads w read_settings)
  unfolding poll_reads record_success
  poll_reads-Polling read_settings = then-Keeps Polling _ _ (settings-Polling read_settings) (
      then-Keeps Polling _ _ (live-Polling live_registers)
        (then-Keeps Polling _ _ (λ b h. h) (λ b h. refl)))

  rest_device-Rested : StaysOffline w → (b : Broker) → Rested (rest_device w b)
  unfolding rest_device
  rest_device-Rested quiet b =
      await-Rested quiet closes
        (on_store note_wedged (on_wedge (λ v. (begin_cooldown (now w b) v).0) b))
        (inr (note_wedged-available b.store))

  cycle_failed-Rested : StaysOffline w → (b : Broker) → Polling b → Rested (cycle_failed w b)
  unfolding cycle_failed record_failure
  cycle_failed-Rested quiet b h =
      let t = on_wedge (record_failure (now w b)) (on_store note_failure b) in
      elim (Bool-cases (wedged (now w t) t.wedge && not (in_cooldown (now w t) t.wedge))) [
        | inl e ↦ rw e (rest_device-Rested quiet t)
        | inr e ↦ rw e (inl h)
      ]

  ended-Rested :
      StaysOffline w → (r : Broker × Result Fault (Unit {0})) → Polling r.0 → Rested (ended w r)
  unfolding ended
  ended-Rested quiet (b, ok _) h = inl h
  ended-Rested quiet (b, err e) h = cycle_failed-Rested quiet b h

  poll_once-Rested :
      StaysOffline w
      → (read_settings : Bool) (b : Broker) → Polling b
      → Rested (poll_once w read_settings b)
  unfolding poll_once
  poll_once-Rested quiet read_settings b h =
      ended-Rested quiet _ (poll_reads-Polling read_settings b h)

  confirmed-Rested :
      (b : Broker) (n : ℕ) → Offline b → Rested (confirmed b (record_probe_success n b.wedge))
  unfolding confirmed record_probe_success record_success
  confirmed-Rested b n h =
      elim (Bool-cases (leb b.wedge.resume_after_probes (b.wedge.probe_successes + 1))) [
        | inl e ↦ rw e (inl refl)
        | inr e ↦ rw e (inr h)
      ]

  after_probe-Rested : StaysOffline w → (r : Broker × Bool) → Offline r.0 → Rested (after_probe w r)
  unfolding after_probe
  after_probe-Rested quiet (b, true) h = confirmed-Rested b (now w b) h
  after_probe-Rested quiet (b, false) h = rest_device-Rested quiet b

  link_probed-Offline :
      (r : Broker × Result Fault (List ℤ)) → Offline r.0 → Offline (link_probed r).0
  unfolding link_probed
  link_probed-Offline (b, ok bytes) h = update_settings-available bytes b.store ∙ h
  link_probed-Offline (b, err e) h = h

  probe-Rested : StaysOffline w → (b : Broker) → Offline b → Rested (probe w b)
  unfolding probe probe_link await
  probe-Rested quiet b h = after_probe-Rested quiet (probe_link w b) (
      link_probed-Offline (governor_read w (pos settings_base) (pos settings_len) b)
        (quiet b.awaits b.store h))

  -- A due probe is a window that is set.
  due-Offline : (n : ℕ) (b : Broker) → awaiting_probe n b.wedge ≡ true → Rested b → Offline b
  unfolding awaiting_probe
  due-Offline n b e (inl h) = ground arith
  due-Offline n b e (inr h) = h

  touch_device-Rested :
      StaysOffline w
      → (read_settings : Bool) (b : Broker) → Rested b
      → Rested (touch_device w read_settings b)
  unfolding touch_device
  touch_device-Rested quiet read_settings b h = elim (one_phase (now w b) b.wedge) [
    | inl (idle, e, e') ↦ rw e (rw e' (poll_once-Rested quiet read_settings b idle))
    | inr (inl (e, e')) ↦ rw e (await-Rested quiet closes b h)
    | inr (inr (e, e')) ↦ rw e (rw e' (probe-Rested quiet b (due-Offline (now w b) b e' h)))
  ]

  broadcast_if-Rested :
      StaysOffline w → (push : Bool) (b : Broker) → Rested b → Rested (broadcast_if push w b)
  unfolding broadcast_if
  broadcast_if-Rested quiet true b h = await-Rested quiet (broadcasts (raw_snapshot b.store)) b h
  broadcast_if-Rested quiet false b h = h

  broadcast-Rested : StaysOffline w → (b : Broker) → Rested b → Rested (broadcast w b)
  unfolding broadcast
  broadcast-Rested quiet b h = broadcast_if-Rested quiet b.push_enabled b h

-- While no other task reports a success to a store that is offline, every turn of the poll loop
-- keeps this: the store is offline whenever a cooldown or the wait for a probe is on.
pub cooldown-offline :
    (w : World) (settings_every client_count : ℕ) (c : Cadence) (b : Broker)
    → OwnsWedge w
    → StaysOffline w
    → Rested b
    → Rested (poll_turn w settings_every client_count (c, b)).1
unfolding poll_turn active
cooldown-offline w settings_every client_count c b owns quiet h =
    elim (Bool-cases (wants_data client_count b)) [
      | inl e ↦ rw e (
          broadcast-Rested w owns quiet _
            (touch_device-Rested w owns quiet (c.idle || c.tick % settings_every == 0) b h))
      | inr e ↦ rw e h
    ]
