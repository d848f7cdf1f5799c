-- ===== src/Broker.antt =====
-- The broker daemon (bridge/r60v_broker/broker.py): its state, its calls of the other parts, and
-- the other tasks that run while it waits.
pub mod Poll
pub mod Tasks
pub mod Write
pub mod Command
use r60v_home_assistant.Base.{ℕ, ◌+◌, Bool, true, false, List, [], ◌∷◌, ◌++◌}
use r60v_home_assistant.Base.Int.{ℤ, pos}
use r60v_home_assistant.Base.Results.{Result, ok, err}
use r60v_home_assistant.Protocol.Frame.{Frame}
use r60v_home_assistant.Store.{DeviceState, RawSnapshot, raw_snapshot}
use r60v_home_assistant.Wedge.{WedgeRecovery}
use r60v_home_assistant.Governor.{Fault}

-- What a task asks of the governor, of the push server and of the event loop.
pub data Action : Type 0 where
  reads : ℤ → ℤ → Action
  writes : ℤ → List ℤ → Action
  closes : Action
  broadcasts : RawSnapshot → Action
  sleeps : ℕ → Action

pub record Broker : Type 0 where
  pub mqtt_enabled : Bool
  pub push_enabled : Bool
  pub store : DeviceState
  pub wedge : WedgeRecovery
  pub intents : List (ℤ × List ℤ)
  pub log : List Action
  pub awaits : ℕ

-- What the task does not decide, by the number of the `await`: the clock once it is over, what the
-- governor's read and write give, and what the other tasks do to the shared store and the shared
-- wedge state meanwhile.
pub record World : Type 0 where
  pub clock : ℕ → ℕ
  pub read_reply : ℕ → Result Fault (List ℤ)
  pub write_reply : ℕ → Result Fault Frame
  pub store_meanwhile : ℕ → DeviceState → DeviceState
  pub wedge_meanwhile : ℕ → WedgeRecovery → WedgeRecovery

-- The clock between two awaits.
abbrev pub now : World → Broker → ℕ
now w b = w.clock b.awaits

-- An `await`: the action, and then the other tasks' turn.
unfoldable pub await : World → Action → Broker → Broker
await w action b = record b {
  store = w.store_meanwhile b.awaits b.store;
  wedge = w.wedge_meanwhile b.awaits b.wedge;
  log = b.log ++ action ∷ [];
  awaits = b.awaits + 1;
}

-- A coroutine: it ends with a value, or with what it raised.
abbrev pub Task {ℓ} : Type ℓ → Type ℓ
Task A = Broker → Broker × Result Fault A

infixl 5 ◌>>=◌ ◌>>◌
follow {ℓ κ} :
    {A : Type ℓ} {B : Type κ} → (A → Task B) → Broker × Result Fault A → Broker × Result Fault B
follow f (b, ok a) = f a b
follow f (b, err e) = (b, err e)

unfoldable pub ◌>>=◌ {ℓ κ} : {A : Type ℓ} {B : Type κ} → Task A → (A → Task B) → Task B
unfolding follow
(m >>= f) b = follow f (m b)

unfoldable pub ◌>>◌ {ℓ} : {B : Type ℓ} → Task (Unit {0}) → Task B → Task B
unfolding ◌>>=◌
m >> k = m >>= λ _. k

abbrev pub return {ℓ} : {A : Type ℓ} → A → Task A
return a b = (b, ok a)

abbrev pub governor_read : World → ℤ → ℤ → Task (List ℤ)
governor_read w address count b = (await w (reads address count) b, w.read_reply b.awaits)

abbrev pub governor_write : World → ℤ → List ℤ → Task Frame
governor_write w address bytes b = (await w (writes address bytes) b, w.write_reply b.awaits)

-- A change of the store, or of the wedge state, with no `await` in it.
abbrev pub on_store : (DeviceState → DeviceState) → Broker → Broker
on_store f b = record b { store = f b.store }

abbrev pub on_wedge : (WedgeRecovery → WedgeRecovery) → Broker → Broker
on_wedge f b = record b { wedge = f b.wedge }

abbrev pub doing : (Broker → Broker) → Task (Unit {0})
doing f b = (f b, ok tt)

broadcast_if : Bool → World → Broker → Broker
broadcast_if true w b = await w (broadcasts (raw_snapshot b.store)) b
broadcast_if false w b = b

-- `if self.push is not None: await self.push.broadcast(self.store.raw_snapshot())`
unfoldable pub broadcast : World → Broker → Broker
unfolding broadcast_if
broadcast w b = broadcast_if b.push_enabled w b
