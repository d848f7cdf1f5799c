-- ===== src/Integration/Update.antt =====
-- `_async_update_data` and `async_write` of custom_components/rocket_r60v/coordinator.py. At each
-- `await` the record `World` says what came back, what the clock reads and what other tasks did to
-- the coordinator meanwhile; the log keeps what was asked of the client, of the health endpoint and
-- of the push channel.
pub mod Rest
pub mod Tolerance
use r60v_home_assistant.Base.{
  ℕ, suc, ◌+◌, Bool, true, false, not, ◌&&◌, Option, none, some, List, [], ◌∷◌, ◌++◌, ltb, leb,
  ◌==◌, if◌then◌else◌,
}
use r60v_home_assistant.Base.Int.{ℤ, pos}
use r60v_home_assistant.Base.Results.{Result, ok, err}
use r60v_home_assistant.Base.Dict.{Dict}
use r60v_home_assistant.Base.Dict
use r60v_home_assistant.Protocol.Address.{settings_base, settings_len}
use r60v_home_assistant.State.Snapshot.{live_registers}
use r60v_home_assistant.Integration.Snapshot.{StateSnapshot, blank}
use r60v_home_assistant.Integration.BridgeHealth.{BridgeHealth}
use r60v_home_assistant.Integration.Coordinator.{
  Coordinator, in_cooldown, bridge_blocking, enter_cooldown, clear_cooldown, probe_answered,
}

abbrev pub failure_tolerance : ℕ
failure_tolerance = 5

-- `R60VConnectionError`, `ProtocolError`, and any other exception.
pub data Fault : Type 0 where
  lost garbled other : Fault

pub data Ask : Type 0 where
  fetches : Ask
  reads : ℕ → ℕ → Ask
  writes : ℕ → List ℕ → Ask
  commands : ℕ → List ℕ → Ask
  closes : Ask
  refreshes : Ask

-- Why an update gives no snapshot: the messages of `UpdateFailed`, or an exception that nothing
-- catches.
pub data Failure : Type 0 where
  link_recovering link_down cooling confirming still_wedged read_failed : Failure
  raised : Failure

pub record Run : Type 0 where
  pub coordinator : Coordinator
  pub log : List Ask
  pub awaits : ℕ

-- By the number of the `await`. `health` is `none` where the fetcher raises.
pub record World : Type 0 where
  pub clock : ℕ → ℕ
  pub health_enabled : Bool
  pub health : ℕ → Option (Option BridgeHealth)
  pub link_up : ℕ → Bool
  pub read_reply : ℕ → Result Fault (List ℤ)
  pub write_reply : ℕ → Result Fault (Unit {0})
  pub command_reply : ℕ → Result Fault (Unit {0})
  pub meanwhile : ℕ → Coordinator → Coordinator

abbrev pub now : World → Run → ℕ
now w r = w.clock r.awaits

-- An `await`: what is asked, and then the other tasks' turn.
unfoldable pub await : World → Ask → Run → Run
await w ask r = record r {
  coordinator = w.meanwhile r.awaits r.coordinator;
  log = r.log ++ ask ∷ [];
  awaits = r.awaits + 1;
}

abbrev pub on : (Coordinator → Coordinator) → Run → Run
on f r = record r { coordinator = f r.coordinator }

-- A coroutine: it ends with a value, or with why there is none.
abbrev pub Task : Type 0 → Type 0 → Type 0
Task E A = Run → Run × Result E A

infixl 5 ◌>>=◌
follow : {E A B : Type 0} → (A → Task E B) → Run × Result E A → Run × Result E B
follow f (r, ok a) = f a r
follow f (r, err e) = (r, err e)

unfoldable pub ◌>>=◌ : {E A B : Type 0} → Task E A → (A → Task E B) → Task E B
unfolding follow
(m >>= f) r = follow f (m r)

abbrev pub return : {E A : Type 0} → A → Task E A
return a r = (r, ok a)

abbrev pub client_read : World → ℕ → ℕ → Task Fault (List ℤ)
client_read w address count r = (await w (reads address count) r, w.read_reply r.awaits)

-- `if self.client.connected: await self.client.close()`
unfoldable pub close_if_connected : World → Run → Run
unfolding await
close_if_connected w r = if w.link_up r.awaits then await w closes r else r

fetched : Option (Option BridgeHealth) → Coordinator → Coordinator
fetched none c = record c { bridge = none }
fetched (some report) c = record c { bridge = report }

unfoldable pub refresh_bridge_health : World → Run → Run
unfolding await fetched
refresh_bridge_health w r =
    if w.health_enabled then on (fetched (w.health r.awaits)) (await w fetches r) else r

-- Whether a probe was answered; what it does not catch escapes.
probed : World → Run × Result Fault (List ℤ) → Run × Result Failure Bool
unfolding close_if_connected
probed w (r, ok bytes) = (r, ok true)
probed w (r, err other) = (r, err raised)
probed w (r, err _) = (close_if_connected w r, ok false)

unfoldable pub probe_healthy : World → Task Failure Bool
unfolding probed await
probe_healthy w r = probed w (client_read w settings_base settings_len r)

read_live : World → List (ℕ × ℕ) → Dict (List ℤ) → Task Fault (Dict (List ℤ))
read_live w [] live = return live
read_live w ((address, count) ∷ rest) live =
    client_read w address count >>= λ bytes. read_live w rest (Dict.put address bytes live)

unfoldable pub read_snapshot : World → Task Fault StateSnapshot
unfolding read_live
read_snapshot w = client_read w settings_base settings_len >>= λ settings.
    read_live w live_registers [] >>= λ live.
    return (record { settings = settings; live = live; available = true })

failing : Coordinator → Coordinator
failing c = record c { consecutive_failures = c.consecutive_failures + 1 }

enter : World → Run → Run
unfolding enter_cooldown
enter w r = on (enter_cooldown (now w r)) r

-- The `except` clause for a failed read, once it is counted: the cached snapshot is served a few
-- times, and then the cooldown begins; before the first snapshot neither happens.
tolerated : World → Option StateSnapshot → Run → Run × Result Failure StateSnapshot
unfolding enter await
tolerated w none r = (r, err read_failed)
tolerated w (some cached) r =
    if leb r.coordinator.consecutive_failures failure_tolerance
    then (r, ok cached)
    else (enter w (await w closes r), err read_failed)

read_failed_at : World → Run → Run × Result Failure StateSnapshot
unfolding tolerated failing
read_failed_at w r = let t = on failing r in tolerated w t.coordinator.data_now t

finished : World → Run × Result Fault StateSnapshot → Run × Result Failure StateSnapshot
unfolding read_failed_at clear_cooldown
finished w (r, ok snapshot) = (on clear_cooldown r, ok snapshot)
finished w (r, err other) = (r, err raised)
finished w (r, err _) = read_failed_at w r

unfoldable pub full_read : World → Task Failure StateSnapshot
unfolding finished read_snapshot
full_read w r = finished w (read_snapshot w r)

confirmed : World → Run → Coordinator × Bool → Run × Result Failure StateSnapshot
unfolding full_read
confirmed w r (c, true) = full_read w (record r { coordinator = c })
confirmed w r (c, false) = (record r { coordinator = c }, err confirming)

after_probe : World → Bool → Task Failure StateSnapshot
unfolding confirmed enter await probe_answered
after_probe w true r = confirmed w r (probe_answered r.coordinator)
after_probe w false r = (enter w (await w closes r), err still_wedged)

unfoldable pub recover : World → Task Failure StateSnapshot
unfolding after_probe probe_healthy
recover w = probe_healthy w >>= after_probe w

blocked_reason : Option BridgeHealth → Failure
blocked_reason none = raised
blocked_reason (some b) = if b.diagnostic_window then link_recovering else link_down

-- The message is made after the `await` of the closing, from the report that is there then.
blocked : World → Run → Run × Result Failure StateSnapshot
unfolding close_if_connected blocked_reason
blocked w r = let t = close_if_connected w r in (t, err (blocked_reason t.coordinator.bridge))

-- The branches of the polling mode, after the refresh of the bridge's health.
unfoldable pub poll : World → Task Failure StateSnapshot
unfolding blocked close_if_connected recover full_read
poll w r =
    if bridge_blocking r.coordinator
    then blocked w r
    else if in_cooldown (now w r) r.coordinator
    then (close_if_connected w r, err cooling)
    else if ltb 0 r.coordinator.cooldown_index
    then recover w r
    else full_read w r

unfoldable pub seed : Option StateSnapshot → StateSnapshot
seed none = record blank { available = false }
seed (some snapshot) = snapshot

by_mode : World → Bool → Task Failure StateSnapshot
unfolding seed poll
by_mode w true t = (t, ok (seed t.coordinator.data_now))
by_mode w false t = poll w t

-- `_async_update_data`
unfoldable pub update_data : World → Task Failure StateSnapshot
unfolding refresh_bridge_health by_mode
update_data w r = by_mode w r.coordinator.push_enabled (refresh_bridge_health w r)

-- `async_write`: in push mode a command over the stream, with the front end to fall back on; the
-- client's write raises what it raises.
write_directly : World → ℕ → List ℕ → Task Fault (Unit {0})
unfolding await
write_directly w address bytes r = (await w (writes address bytes) r, w.write_reply r.awaits)

requested : World → Run × Result Fault (Unit {0}) → Run × Result Fault (Unit {0})
unfolding await
requested w (r, ok _) = (await w refreshes r, ok tt)
requested w (r, err e) = (r, err e)

fell_back : World → ℕ → List ℕ → Run × Result Fault (Unit {0}) → Run × Result Fault (Unit {0})
unfolding write_directly
fell_back w address bytes (r, ok _) = (r, ok tt)
fell_back w address bytes (r, err lost) = write_directly w address bytes r
fell_back w address bytes (r, err e) = (r, err e)

-- `attached` is whether the push client was wired.
unfoldable pub async_write : World → Bool → ℕ → List ℕ → Task Fault (Unit {0})
unfolding fell_back requested write_directly await
async_write w attached address bytes r =
    if r.coordinator.push_enabled && attached
    then fell_back w address bytes (await w (commands address bytes) r, w.command_reply r.awaits)
    else requested w (write_directly w address bytes r)
