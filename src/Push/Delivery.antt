-- ===== src/Push/Delivery.antt =====
-- From the bridge's store, over the push server, to the data of the integration.
use r60v_home_assistant.Base.{ℕ, ◌≡◌, ap, ◌∙◌, false, true, none, some, map}
use r60v_home_assistant.Base.Dict.{Dict}
use r60v_home_assistant.Base.Dict
use r60v_home_assistant.Store.{DeviceState, raw_snapshot, available}
use r60v_home_assistant.Integration.Snapshot.{StateSnapshot}
use r60v_home_assistant.Integration.Stream.{no_live, entries, Frame, state, updates, handle}
use r60v_home_assistant.Integration.Stream.Entries.{entry, Distinct, handle-entries}
use r60v_home_assistant.Push.{
  State, only_available, raw, Wrapped, wrap, WsPushServer, has, Reachable,
}
use r60v_home_assistant.Push.Fresh.{clients-IsFresh}

-- What a client finds in the JSON text of a message.
dumped_state : State → Frame
dumped_state (only_available b) =
    state (record { settings = none; live = no_live; available = some b })
dumped_state (raw r) = state (record {
  settings = some r.settings;
  live = entries (map entry r.live);
  available = some r.online;
})

unfoldable pub dumped : Wrapped → Frame
unfolding dumped_state
dumped m = dumped_state m.state

-- What the integration is to show of the bridge's store.
abbrev pub view : DeviceState → StateSnapshot
view store = record {
  settings = store.snapshot.settings;
  live = store.snapshot.live;
  available = available store;
}

handle-dumped :
    (now : ℕ) (store : DeviceState)
    → Distinct store.snapshot.live
    → handle (dumped (wrap now (raw (raw_snapshot store)))) ≡ updates (view store)
unfolding dumped dumped_state wrap raw_snapshot
handle-dumped now store distinct =
    handle-entries store.snapshot.settings store.snapshot.live (available store) distinct

-- Once a broadcast of the store's snapshot is over, every client of the push server has last been
-- given a message that the integration decodes to the settings and the live registers of the store,
-- with the store's verdict on whether the machine is available. A dict has no key twice.
pub clients-view :
    (start now : ℕ) (s : WsPushServer) (client : ℕ) (store : DeviceState)
    → Reachable start s
    → s.locked ≡ false
    → s.latest ≡ wrap now (raw (raw_snapshot store))
    → has client s.clients ≡ true
    → Distinct store.snapshot.live
    → (m : Wrapped) × (Dict.get client s.handed ≡ some m)
      × (handle (dumped m) ≡ updates (view store))
clients-view start now s client store r idle latest h distinct = (
  s.latest,
  clients-IsFresh start s client r idle h,
  ap (λ m. handle (dumped m)) latest ∙ handle-dumped now store distinct,
)
