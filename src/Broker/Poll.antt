-- ===== src/Broker/Poll.antt =====
-- The poll loop of the broker: `_poll_loop`, `_poll_once` and `_probe_link`.
pub mod Cooldown
pub mod Gentle
use r60v_home_assistant.Base.{
  ℕ, ◌+◌, ◌%◌, Bool, true, false, not, ◌&&◌, ◌||◌, List, [], ◌∷◌, ◌==◌, if◌then◌else◌,
}
use r60v_home_assistant.Base.Int.{ℤ, pos}
use r60v_home_assistant.Base.Results.{Result, ok, err}
use r60v_home_assistant.Protocol.Address.{settings_base, settings_len}
use r60v_home_assistant.State.Snapshot.{live_registers}
use r60v_home_assistant.Store.{
  update_settings, update_live, note_success, note_failure, note_wedged,
}
use r60v_home_assistant.Wedge.{
  record_success, record_failure, record_probe_success, begin_cooldown, wedged, in_cooldown,
  awaiting_probe, WedgeRecovery,
}
use r60v_home_assistant.Governor.{Fault}
use r60v_home_assistant.Broker.{
  Action, reads, closes, Broker, World, now, await, Task, ◌>>=◌, ◌>>◌, return, governor_read,
  on_store, on_wedge, doing, broadcast,
}

unfoldable pub read_settings_block : World → Task (Unit {0})
read_settings_block w = do
  bytes ← governor_read w (pos settings_base) (pos settings_len)
  doing (on_store (update_settings bytes))

unfoldable pub read_live_registers : World → List (ℕ × ℕ) → Task (Unit {0})
read_live_registers w [] = return tt
read_live_registers w ((address, count) ∷ rest) = do
  bytes ← governor_read w (pos address) (pos count)
  doing (λ b. on_store (update_live (now w b) address bytes) b)
  read_live_registers w rest

unfoldable pub settings_part : World → Bool → Task (Unit {0})
settings_part w true = read_settings_block w
settings_part w false = return tt

-- The body of the `try` in `_poll_once`.
unfoldable pub poll_reads : World → Bool → Task (Unit {0})
poll_reads w read_settings = do
  settings_part w read_settings
  read_live_registers w live_registers
  doing (on_store note_success)
  doing (on_wedge record_success)

-- What both failures of a wedged machine come to: a cooldown begins, the store is forced offline,
-- and the link is closed.
unfoldable pub rest_device : World → Broker → Broker
unfolding await
rest_device w b =
    await w closes (on_store note_wedged (on_wedge (λ v. (begin_cooldown (now w b) v).0) b))

-- What `_poll_once` does when a cycle failed.
unfoldable pub cycle_failed : World → Broker → Broker
unfolding rest_device
cycle_failed w b =
    let t = on_wedge (record_failure (now w b)) (on_store note_failure b) in
    if wedged (now w t) t.wedge && not (in_cooldown (now w t) t.wedge) then rest_device w t else t

-- `ok`, and the two `except` clauses, which both leave it false.
ended : World → Broker × Result Fault (Unit {0}) → Broker
unfolding cycle_failed
ended w (b, ok _) = b
ended w (b, err e) = cycle_failed w b

unfoldable pub poll_once : World → Bool → Broker → Broker
unfolding ended poll_reads
poll_once w read_settings b = ended w (poll_reads w read_settings b)

-- `_probe_link`; a failed read of any kind is a failed probe.
link_probed : Broker × Result Fault (List ℤ) → Broker × Bool
link_probed (b, ok bytes) = (on_store (update_settings bytes) b, true)
link_probed (b, err e) = (b, false)

unfoldable pub probe_link : World → Broker → Broker × Bool
unfolding link_probed await
probe_link w b = link_probed (governor_read w (pos settings_base) (pos settings_len) b)

confirmed : Broker → WedgeRecovery × Bool → Broker
confirmed b (v, true) = on_store note_success (record b { wedge = v })
confirmed b (v, false) = record b { wedge = v }

-- The branch of the loop for a due probe.
after_probe : World → Broker × Bool → Broker
unfolding confirmed rest_device
after_probe w (b, true) = confirmed b (record_probe_success (now w b) b.wedge)
after_probe w (b, false) = rest_device w b

unfoldable pub probe : World → Broker → Broker
unfolding after_probe probe_link
probe w b = after_probe w (probe_link w b)

-- The three branches on the wedge state.
unfoldable pub touch_device : World → Bool → Broker → Broker
unfolding await probe poll_once
touch_device w read_settings b =
    if in_cooldown (now w b) b.wedge
    then await w closes b
    else if awaiting_probe (now w b) b.wedge
    then probe w b
    else poll_once w read_settings b

-- What the loop keeps between its turns: the counter of the active cycles, and whether the last
-- turn found nobody to poll for.
pub record Cadence : Type 0 where
  pub tick : ℕ
  pub idle : Bool

unfoldable pub wants_data : ℕ → Broker → Bool
wants_data client_count b = b.mqtt_enabled || (b.push_enabled && not (client_count == 0))

active : World → ℕ → Cadence → Broker → Broker
unfolding touch_device broadcast
active w settings_every c b =
    broadcast w (touch_device w (c.idle || c.tick % settings_every == 0) b)

-- One turn of `_poll_loop`, up to its sleep, with the number of the push server's clients.
-- `settings_every` is `max(1, round(settings_interval / interval))`.
unfoldable pub poll_turn : World → ℕ → ℕ → Cadence × Broker → Cadence × Broker
unfolding active wants_data
poll_turn w settings_every client_count (c, b) =
    if wants_data client_count b
    then (record { tick = c.tick + 1; idle = false }, active w settings_every c b)
    else (record c { idle = true }, b)
