-- ===== src/Integration/Stream.antt =====
-- The stream of custom_components/rocket_r60v/push_client.py: decoding a push frame, the loop that
-- subscribes and reconnects, and sending a command. Times are whole milliseconds.
pub mod Keys
pub mod Backoff
pub mod Entries
use r60v_home_assistant.Base.{
  ℕ, ◌*◌, min, Bool, true, false, Option, none, some, List, [], ◌∷◌, ◌++◌, if◌then◌else◌,
}
use r60v_home_assistant.Base.Int.{ℤ, pos, negsuc}
use r60v_home_assistant.Base.Dict.{Dict}
use r60v_home_assistant.Base.Dict
use r60v_home_assistant.Base.Results.{Result, ok, err}
use r60v_home_assistant.Protocol.Text.{Text}
use r60v_home_assistant.Integration.Snapshot.{StateSnapshot}
use r60v_home_assistant.Integration.Coordinator.{Coordinator}
use r60v_home_assistant.Integration.Stream.Keys.{int_dec}

-- A member of the frame's `live`: a list of integers, or what `list` raises a `TypeError` for.
pub data Item : Type 0 where
  listed : List ℤ → Item
  unlistable : Item

-- What `data.get("live") or {}` gives: nothing, a dict, or what has no `items`.
pub data Live : Type 0 where
  no_live : Live
  entries : List (Text × Item) → Live
  no_dict : Live

-- A frame of type "state"; `settings` is `none` unless it is a list, and `available` is the truth
-- value of what it holds.
pub record StateFrame : Type 0 where
  pub settings : Option (List ℤ)
  pub live : Live
  pub available : Option Bool

-- What a text message can be.
pub data Frame : Type 0 where
  not_json not_state : Frame
  state : StateFrame → Frame

-- An entry is skipped when its key is no number. A key below zero names no register: it is left out.
keyed : Option ℤ → List ℤ → Dict (List ℤ) → Dict (List ℤ)
keyed none bytes live = live
keyed (some (pos address)) bytes live = Dict.put address bytes live
keyed (some (negsuc n)) bytes live = live

with_entry : Text × Item → Dict (List ℤ) → Dict (List ℤ)
unfolding keyed int_dec
with_entry (key, listed bytes) live = keyed (int_dec key) bytes live
with_entry (key, unlistable) live = live

unfoldable pub with_entries : List (Text × Item) → Dict (List ℤ) → Dict (List ℤ)
unfolding with_entry
with_entries [] live = live
with_entries (e ∷ es) live = with_entries es (with_entry e live)

-- What becomes of a frame: it is passed over, it gives the coordinator its data, or it raises an
-- `AttributeError`.
pub data Handled : Type 0 where
  ignored : Handled
  updates : StateSnapshot → Handled
  attribute_error : Handled

available_of : Option Bool → Bool
available_of none = true
available_of (some b) = b

snapshot_of : List ℤ → Dict (List ℤ) → Option Bool → Handled
unfolding available_of
snapshot_of settings live available' =
    updates (record { settings = settings; live = live; available = available_of available' })

with_live : List ℤ → Live → Option Bool → Handled
unfolding snapshot_of with_entries
with_live settings no_live available' = snapshot_of settings [] available'
with_live settings (entries es) available' = snapshot_of settings (with_entries es []) available'
with_live settings no_dict available' = attribute_error

with_settings : Option (List ℤ) → StateFrame → Handled
unfolding with_live
with_settings none f = ignored
with_settings (some settings) f = with_live settings f.live f.available

-- `_handle`
unfoldable pub handle : Frame → Handled
unfolding with_settings
handle not_json = ignored
handle not_state = ignored
handle (state f) = with_settings f.settings f

-- `async_set_updated_data` and `async_set_update_error` of the coordinator's base class.
unfoldable pub set_updated_data : StateSnapshot → Coordinator → Coordinator
set_updated_data shown c = record c { data_now = some shown; last_update_success = true }

unfoldable pub set_update_error : Coordinator → Coordinator
set_update_error c = record c { last_update_success = false }

-- A message of the stream: a text, one that ends it (closed, or an error), or another.
pub data Message : Type 0 where
  text : Frame → Message
  ends : Message
  passes : Message

-- `none` when a frame raised.
unfoldable pub messages : List Message → Coordinator → Coordinator × Bool
messages [] c = (c, true)
messages (text f ∷ rest) c =
    let onward = λ (d : Coordinator). messages rest d in
    elim (handle f) [
      | ignored ↦ onward c
      | updates shown ↦ onward (set_updated_data shown c)
      | attribute_error ↦ (c, false)
    ]
messages (ends ∷ rest) c = (c, true)
messages (passes ∷ rest) c = messages rest c

abbrev pub backoff_start : ℕ
backoff_start = 1000

abbrev pub backoff_max : ℕ
backoff_max = 30000

-- The loop's state; `over` is whether an exception has ended it.
pub record Stream : Type 0 where
  pub coordinator : Coordinator
  pub backoff : ℕ
  pub sleeps : List ℕ
  pub over : Bool

-- A turn of the loop: the connection fails, or it delivers messages and then ends or breaks.
pub data Session : Type 0 where
  fails : Session
  delivers : List Message → Session

-- The stream is down: the data is stale, and the loop sleeps.
unfoldable pub dropped : Stream → Stream
unfolding set_update_error
dropped s = record s {
  coordinator = set_update_error s.coordinator;
  sleeps = s.sleeps ++ min s.backoff backoff_max ∷ [];
  backoff = min (s.backoff * 2) backoff_max;
}

delivered : Coordinator × Bool → Stream → Stream
unfolding dropped
delivered (c, true) s = dropped (record s { coordinator = c })
delivered (c, false) s = record s { coordinator = c; over = true }

unfoldable pub turn : Session → Stream → Stream
unfolding delivered messages
turn fails s = dropped s
turn (delivers ms) s = delivered (messages ms s.coordinator) (record s { backoff = backoff_start })

-- `_run`, until `stop` cancels it: that is where the sessions end.
unfoldable pub run : List Session → Stream → Stream
unfolding turn
run [] s = s
run (session ∷ rest) s = let next = run rest (turn session s) in if s.over then s else next

unfoldable pub start : Coordinator → Stream
start c = record { coordinator = c; backoff = backoff_start; sleeps = []; over = false }

pub record CommandFrame : Type 0 where
  pub address : ℤ
  pub bytes : List ℤ
  pub key : Option Text

-- `async_send_command`: whether the socket is open, and whether it takes the frame. Either failure
-- is an `R60VConnectionError`.
unfoldable pub send_command :
    Bool → Bool → ℤ → List ℤ → Option Text → Result (Unit {0}) CommandFrame
send_command up taken address bytes' key =
    if up
    then if taken then ok (record { address = address; bytes = bytes'; key = key }) else err tt
    else err tt
