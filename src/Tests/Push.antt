-- ===== src/Tests/Push.antt =====
-- The push channel of bridge/r60v_broker/push_server.py and custom_components/rocket_r60v/push_client.py
-- at concrete inputs.
use r60v_home_assistant.Base.{
  ◌*◌, ◌≡◌, refl, true, false, none, some, List, [], ◌∷◌, ◌++◌, arith, replicate,
}
use r60v_home_assistant.Base.Int.{pos}
use r60v_home_assistant.Base.Dict
use r60v_home_assistant.Base.Results.{err}
use r60v_home_assistant.Protocol.Text.{codes}
use r60v_home_assistant.Protocol.Hex.{strip_spaces}
use r60v_home_assistant.Protocol.Address.{standby}
use r60v_home_assistant.Store.{DeviceState, raw_snapshot, update_live, apply_optimistic}
use r60v_home_assistant.Store
use r60v_home_assistant.Wedge
use r60v_home_assistant.Governor.{connection}
use r60v_home_assistant.Broker.{Broker, World}
use r60v_home_assistant.Broker.Write.{on_ws_command}
use r60v_home_assistant.Broker.Write.Admission.{after_broadcast}
use r60v_home_assistant.Integration.Coordinator
use r60v_home_assistant.Integration.Entities.{bool_on_zero, encode_bool}
use r60v_home_assistant.Integration.Profile.{unreadable}
use r60v_home_assistant.Integration.Registry.{
  Access, flag, command_for, entities, R60vEntityDescription,
}
use r60v_home_assistant.Integration.Stream.{
  Stream, Message, text, ends, state, listed, unlistable, entries, no_dict, Frame, messages, handle,
  updates, with_entries, set_update_error, delivers, fails, run, start, CommandFrame, send_command,
}
use r60v_home_assistant.Integration.Stream.Backoff.{pauses_from, run-reconnects}
use r60v_home_assistant.Integration.Stream.Keys.{int_dec}
use r60v_home_assistant.Push.{
  raw, Wrapped, wrap, WsPushServer, init, join, begin, sent, finish, has, discard, Reachable,
  created, next, joins, begins, sends, finishes, handle_inbound,
}
use r60v_home_assistant.Push.Fresh.{clients-IsFresh}
use r60v_home_assistant.Push.Delivery.{dumped, view, clients-view}
use r60v_home_assistant.Push.Commands.{inbound_of, command_for-queued}

-- A store with one live register, and a server with one client, to which it was broadcast.
abbrev store : DeviceState
store = update_live 1000 0xB000 (pos 92 ∷ []) (Store.init 3 30000 2)

abbrev joined : WsPushServer
joined = join 7 (init 100)

abbrev sending : WsPushServer
sending = begin 200 (raw (raw_snapshot store)) joined

abbrev served : WsPushServer
served = finish (sent 7 sending)

waits : has 7 sending.waiting ≡ true
unfolding begin join init has
waits = refl

served-Reachable : Reachable 100 served
unfolding begin join init has discard sent
served-Reachable =
    next
      (next
        (next (next created (joins 7 (init 100)))
          (begins 200 (raw (raw_snapshot store)) joined refl))
        (sends 7 sending waits))
      (finishes (sent 7 sending) refl refl)

clients-IsFresh_example : Dict.get 7 served.handed ≡ some served.latest
unfolding begin join init has sent finish
clients-IsFresh_example = clients-IsFresh 100 served 7 served-Reachable refl refl

clients-view_example :
    (m : Wrapped) × (Dict.get 7 served.handed ≡ some m) × (handle (dumped m) ≡ updates (view store))
unfolding begin join init has sent finish wrap update_live Store.init Dict.put
clients-view_example = clients-view 100 200 served 7 store served-Reachable refl refl refl (tt, tt)

-- A frame with a live register, an entry that is no list and a key that is no number.
abbrev frame : Frame
frame = state (record {
  settings = some (pos 0 ∷ pos 105 ∷ []);
  live = entries (
      (codes "45056", listed (pos 92 ∷ []))
      ∷ (codes "45057", unlistable)
      ∷ (codes "display", listed [])
      ∷ []);
  available = none;
})

frame-handled :
    handle frame
    ≡ updates (record {
      settings = pos 0 ∷ pos 105 ∷ [];
      live = (0xB000, pos 92 ∷ []) ∷ [];
      available = true;
    })
unfolding handle with_entries int_dec Dict.put strip_spaces
frame-handled = refl

-- A frame whose `live` is no dict ends the task.
broken_frame :
    (run
      (delivers
          (text (state (record { settings = some []; live = no_dict; available = none })) ∷ [])
        ∷ fails
        ∷ [])
      (start (Coordinator.init true true none))).over
    ≡ true
unfolding run messages handle start
broken_frame = refl

abbrev streaming : Stream
streaming = start (Coordinator.init true true none)

abbrev received : List Message
received = text frame ∷ ends ∷ []

received-fine : (messages received streaming.coordinator).1 ≡ true
unfolding messages handle
received-fine = refl

run-reconnects_example :
    ((run (delivers received ∷ replicate 6 fails) streaming).sleeps
      ≡ streaming.sleeps ++ pauses_from 0 7)
    × ((run (delivers received ∷ replicate 6 fails) streaming).coordinator
        ≡ set_update_error (messages received streaming.coordinator).0)
    × ((run (delivers received ∷ replicate 6 fails) streaming).over ≡ false)
run-reconnects_example = run-reconnects received 6 streaming (unfold start in refl) received-fine

-- The power switch.
abbrev power : R60vEntityDescription
power = record {
  key = codes "power";
  access = Access.switches (bool_on_zero standby) (encode_bool standby 0 1);
}

abbrev turn_on : CommandFrame
turn_on = record { address = pos standby; bytes = pos 0 ∷ []; key = none }

abbrev world : World
world = record {
  clock = λ k. 100 * k;
  read_reply = λ k. err connection;
  write_reply = λ k. err connection;
  store_meanwhile = λ k s. s;
  wedge_meanwhile = λ k v. v;
}

abbrev broker : Broker
broker = record {
  mqtt_enabled = false;
  push_enabled = true;
  store = store;
  wedge = Wedge.init 45000 (300, 600 ∷ []) 2;
  intents = [];
  log = [];
  awaits = 0;
}

command_for-queued_example :
    ((handle_inbound (some (on_ws_command world)) (inbound_of turn_on) broker).intents
      ≡ [] ++ (pos standby, pos 0 ∷ []) ∷ [])
    × ((handle_inbound (some (on_ws_command world)) (inbound_of turn_on) broker).store
        ≡ after_broadcast world true 0 (apply_optimistic (pos standby) (pos 0 ∷ []) store).0)
unfolding entities command_for encode_bool send_command
command_for-queued_example =
    command_for-queued (λ t. unreadable) 3 power (flag true) (standby, 0 ∷ []) true true none
      turn_on world broker refl tt refl refl (omega arith)
