-- ===== src/Push.antt =====
-- The push server of bridge/r60v_broker/push_server.py: its set of clients, the broadcast and the
-- frames that come in. A client is a number, for its socket.
pub mod Fresh
pub mod Delivery
pub mod Commands
use r60v_home_assistant.Base.{
  ℕ, ◌≡◌, Bool, true, false, Option, none, some, List, [], ◌∷◌, ◌++◌, ◌==◌, if◌then◌else◌,
}
use r60v_home_assistant.Base.Dict.{Dict}
use r60v_home_assistant.Base.Dict
use r60v_home_assistant.Store.{RawSnapshot}
use r60v_home_assistant.Broker.Write.{Field}

-- What a broadcast is given: the store's raw snapshot, or only the verdict, as at the start.
pub data State : Type 0 where
  only_available : Bool → State
  raw : RawSnapshot → State

-- The wrapped state; the type "state" and the schema 1 are the same in all of them.
pub record Wrapped : Type 0 where
  pub ts : ℕ
  pub state : State

unfoldable pub wrap : ℕ → State → Wrapped
wrap now state = record { ts = now; state = state }

-- `locked` is the broadcast lock. Of the broadcast that runs, `msg` is the text, `waiting` are the
-- clients that it still sends to, and `dead` those that it failed to reach. `handed` is the last
-- message that was given to each client's socket.
pub record WsPushServer : Type 0 where
  pub clients : List ℕ
  pub latest : Wrapped
  pub locked : Bool
  pub msg : Wrapped
  pub waiting : List ℕ
  pub dead : List ℕ
  pub handed : Dict Wrapped

unfoldable pub init : ℕ → WsPushServer
unfolding wrap
init now = record {
  clients = [];
  latest = wrap now (only_available false);
  locked = false;
  msg = wrap now (only_available false);
  waiting = [];
  dead = [];
  handed = [];
}

unfoldable pub has : ℕ → List ℕ → Bool
has x [] = false
has x (y ∷ ys) = if y == x then true else has x ys

unfoldable pub add : ℕ → List ℕ → List ℕ
unfolding has
add x ys = if has x ys then ys else ys ++ x ∷ []

unfoldable pub discard : ℕ → List ℕ → List ℕ
discard x [] = []
discard x (y ∷ ys) = let rest = discard x ys in if y == x then rest else y ∷ rest

unfoldable pub discard_all : List ℕ → List ℕ → List ℕ
unfolding discard
discard_all [] ys = ys
discard_all (x ∷ xs) ys = discard_all xs (discard x ys)

-- `_handler` up to its first `await`: the client is in the set, and is sent the latest message.
unfoldable pub join : ℕ → WsPushServer → WsPushServer
unfolding add
join client s = record s {
  clients = add client s.clients;
  handed = Dict.put client s.latest s.handed;
}

-- The end of `_handler`, however it comes.
unfoldable pub leave : ℕ → WsPushServer → WsPushServer
unfolding discard
leave client s = record s { clients = discard client s.clients }

send_to_all : List ℕ → WsPushServer → WsPushServer
send_to_all [] s = s
send_to_all (c ∷ cs) s = record s { locked = true; msg = s.latest; waiting = c ∷ cs; dead = [] }

-- `broadcast` up to its `gather`, once it has the lock. With no client it ends at once.
unfoldable pub begin : ℕ → State → WsPushServer → WsPushServer
unfolding send_to_all wrap
begin now state s = send_to_all s.clients (record s { latest = wrap now state })

-- `_safe_send`, when the send works and when it is given up.
unfoldable pub sent : ℕ → WsPushServer → WsPushServer
unfolding discard
sent client s = record s {
  waiting = discard client s.waiting;
  handed = Dict.put client s.msg s.handed;
}

unfoldable pub failed : ℕ → WsPushServer → WsPushServer
unfolding discard
failed client s = record s { waiting = discard client s.waiting; dead = s.dead ++ client ∷ [] }

-- The end of `broadcast`: the dead clients are dropped, and the lock is free.
unfoldable pub finish : WsPushServer → WsPushServer
unfolding discard_all
finish s = record s { clients = discard_all s.dead s.clients; locked = false; dead = [] }

-- What the tasks of the server do: clients come and go at any time, one broadcast runs at a time,
-- and its sends end in any order.
pub data Step : WsPushServer → WsPushServer → Type 0 where
  joins : (client : ℕ) (s : WsPushServer) → Step s (join client s)
  leaves : (client : ℕ) (s : WsPushServer) → Step s (leave client s)
  begins :
      (now : ℕ) (state : State) (s : WsPushServer) → s.locked ≡ false → Step s (begin now state s)
  sends : (client : ℕ) (s : WsPushServer) → has client s.waiting ≡ true → Step s (sent client s)
  gives_up :
      (client : ℕ) (s : WsPushServer) → has client s.waiting ≡ true → Step s (failed client s)
  finishes : (s : WsPushServer) → s.locked ≡ true → s.waiting ≡ [] → Step s (finish s)

pub data Reachable (now : ℕ) : WsPushServer → Type 0 where
  created : Reachable now (init now)
  next : {s t : WsPushServer} → Reachable now s → Step s t → Reachable now t

-- A frame that comes in: no JSON, no command, or a command with what it holds under "address" and
-- "data".
pub data Inbound : Type 0 where
  not_json not_command : Inbound
  command : Field → Field → Inbound

-- `_handle_inbound`, on the state that the handler works on; what the handler raises is swallowed.
unfoldable pub handle_inbound {ℓ} : {A : Type ℓ} → Option (Field → Field → A → A) → Inbound → A → A
handle_inbound none frame a = a
handle_inbound (some on_command) not_json a = a
handle_inbound (some on_command) not_command a = a
handle_inbound (some on_command) (command address bytes) a = on_command address bytes a
