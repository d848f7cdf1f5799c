-- ===== src/Client.antt =====
-- The socket client (bridge/r60v_broker/client.py). The socket is a parameter: what opening it and
-- waiting for a reply come to, by the number of the step. Times are whole milliseconds.
pub mod Retry
pub mod Backoff
pub mod Reply
use r60v_home_assistant.Base.{
  ℕ, zero, suc, ◌+◌, ◌-◌, ◌*◌, min, Bool, true, false, not, Option, none, some, List, [], ◌∷◌, ◌++◌,
  ltb, ◌==◌, if◌then◌else◌,
}
use mathlib.Core.Option
use r60v_home_assistant.Base.Int.{ℤ, pos, ◌+ℤ◌}
use r60v_home_assistant.Base.Results.{Result, ok, err}
use r60v_home_assistant.Protocol.Text.{Text, text_eq}
use r60v_home_assistant.Protocol.Hex.{int_hex}
use r60v_home_assistant.Protocol.Frame.{
  read, ProtocolError, Frame, parse_frame, build_read, build_write, slice,
}
use r60v_home_assistant.Protocol.Address.{settings_base, settings_len}
use r60v_home_assistant.Base.{take}

-- What waiting for a reply comes to: the bytes asked for, a clean timeout, the end of the stream
-- before them, or an error of the socket, which writing can also meet.
pub data Heard : Type 0 where
  bytes : Text → Heard
  silence short_read broken : Heard

-- What opening a connection comes to: refused or timed out; no greeting in time, or the end of the
-- stream before it; an error of the socket before it; or a greeting.
pub data Opening : Type 0 where
  refused mute severed greeted : Opening

-- `R60VConnectionError`, `ProtocolError`, `OSError`, and any other exception.
pub data Trouble : Type 0 where
  lost io other : Trouble
  garbled : ProtocolError → Trouble

-- What goes over the line: a frame, with the length of the reply that is waited for, or the opening
-- and the closing of a connection; and a pause between two attempts to connect.
pub data Wire : Type 0 where
  sends : Text → ℤ → Wire
  opens closes : Wire
  pauses : ℕ → Wire

pub record Client : Type 0 where
  pub backoff_initial : ℕ
  pub backoff_max : ℕ
  pub warmup : Bool
  pub request_gap : ℕ
  pub max_retries : ℕ
  pub connected : Bool
  pub last_request_at : ℕ
  pub log : List Wire
  pub steps : ℕ

pub record Line : Type 0 where
  pub clock : ℕ → ℕ
  pub hears : ℕ → Heard
  pub opening : ℕ → Opening

-- `9 + length * 2 + 2` for a read, and 13 for anything else; `none` is the `ValueError` of `int`.
response_len : Bool → Option ℤ → Option ℤ
response_len true (some n) = some (pos 9 +ℤ (n +ℤ n) +ℤ pos 2)
response_len false (some n) = some (pos 13)
response_len _ none = none

unfoldable pub expected_response_len : Text → Option ℤ
unfolding response_len
expected_response_len request =
    response_len (text_eq (take 1 request) read) (int_hex (slice 5 9 request))

-- How long `_pace` sleeps.
unfoldable pub pace : ℕ → Client → ℕ
pace now c =
    if c.request_gap == 0
    then 0
    else if ltb now (c.last_request_at + c.request_gap)
    then c.last_request_at + c.request_gap - now
    else 0

-- `_pace`, and then the frame is written.
unfoldable pub send : Line → Text → ℤ → Client → Client
unfolding pace
send line frame want c = record c {
  last_request_at = line.clock c.steps + pace (line.clock c.steps) c;
  log = c.log ++ sends frame want ∷ [];
  steps = c.steps + 1;
}

parsed : Result ProtocolError Frame → Result Trouble Frame
parsed (ok f) = ok f
parsed (err e) = err (garbled e)

-- The end of a try: `again` is what follows a swallowed request.
after_try : Heard → Client × Result Trouble Frame → Client → Client × Result Trouble Frame
unfolding parsed
after_try (bytes raw) again c = (c, parsed (parse_frame true raw))
after_try silence again c = again
after_try short_read again c = (c, err lost)
after_try broken again c = (c, err io)

-- The tries of `_exchange`, with the number that may follow the first.
unfoldable pub tries : Line → Text → ℤ → ℕ → Client → Client × Result Trouble Frame
unfolding after_try send
tries line frame want zero c =
    let d = send line frame want c in after_try (line.hears c.steps) (d, err lost) d
tries line frame want (suc n) c =
    let d = send line frame want c in
    let again = tries line frame want n d in after_try (line.hears c.steps) again d

exchange_for : Line → Text → Option ℤ → Client → Client × Result Trouble Frame
unfolding tries
exchange_for line frame none c = (c, err other)
exchange_for line frame (some want) c = tries line frame want c.max_retries c

unfoldable pub exchange : Line → Text → Client → Client × Result Trouble Frame
unfolding exchange_for expected_response_len
exchange line frame c = exchange_for line frame (expected_response_len frame) c

-- `_drop`
unfoldable pub drop_link : Client → Client
drop_link c = if c.connected then record c { connected = false; log = c.log ++ closes ∷ [] } else c

-- `_warm_up`: a reply that is lost or garbled does not matter.
warmed : Client × Result Trouble Frame → Client × Result Trouble (Unit {0})
warmed (c, ok f) = (c, ok tt)
warmed (c, err lost) = (c, ok tt)
warmed (c, err (garbled e)) = (c, ok tt)
warmed (c, err io) = (c, err io)
warmed (c, err other) = (c, err other)

warm_up : Line → Result ProtocolError Text → Client → Client × Result Trouble (Unit {0})
unfolding warmed exchange
warm_up line (ok frame) c = if c.warmup then warmed (exchange line frame c) else (c, ok tt)
warm_up line (err e) c = if c.warmup then (c, err (garbled e)) else (c, ok tt)

opened : Line → Opening → Client → Client × Result Trouble (Unit {0})
unfolding warm_up build_read
opened line refused c = (c, err io)
opened line mute c = (record c { connected = true }, err lost)
opened line severed c = (record c { connected = true }, err io)
opened line greeted c =
    warm_up line (build_read (pos settings_base) (pos settings_len)) (record c { connected = true })

open_from : Line → Client → Client × Result Trouble (Unit {0})
unfolding opened
open_from line c =
    opened line (line.opening c.steps) (record c { log = c.log ++ opens ∷ []; steps = c.steps + 1 })

-- `connect`; a connection without a greeting stays open until the next one drops it.
unfoldable pub connect : Line → Client → Client × Result Trouble (Unit {0})
unfolding open_from drop_link
connect line c = open_from line (drop_link c)

-- The `while True` of `_ensure_connected`, on fuel: `none` when it is spent. An exception that the
-- loop does not catch ends it.
reconnect :
    (Client → Option (Client × Result Trouble (Unit {0})))
    → ℕ
    → Client × Result Trouble (Unit {0})
    → Option (Client × Result Trouble (Unit {0}))
reconnect again backoff (c, ok _) = some (c, ok tt)
reconnect again backoff (c, err other) = some (c, err other)
reconnect again backoff (c, err _) = again (record c { log = c.log ++ pauses backoff ∷ [] })

unfoldable pub connect_until : ℕ → ℕ → Line → Client → Option (Client × Result Trouble (Unit {0}))
unfolding reconnect connect
connect_until zero backoff line c = none
connect_until (suc fuel) backoff line c =
    reconnect (connect_until fuel (min (backoff * 2) c.backoff_max) line) backoff (connect line c)

unfoldable pub ensure_connected : ℕ → Line → Client → Option (Client × Result Trouble (Unit {0}))
unfolding connect_until
ensure_connected fuel line c =
    if c.connected then some (c, ok tt) else connect_until fuel c.backoff_initial line c

-- One turn of the loop in `request`: every error but `other` drops the connection, and the next
-- turn, or the final `R60VConnectionError`, follows.
exchanged :
    (Client → Option (Client × Result Trouble Frame))
    → Client × Result Trouble Frame
    → Option (Client × Result Trouble Frame)
unfolding drop_link
exchanged next (c, ok f) = some (c, ok f)
exchanged next (c, err other) = some (c, err other)
exchanged next (c, err _) = next (drop_link c)

over_link :
    (Client → Option (Client × Result Trouble Frame))
    → Line
    → Text
    → Option (Client × Result Trouble (Unit {0}))
    → Option (Client × Result Trouble Frame)
unfolding exchanged exchange
over_link next line frame none = none
over_link next line frame (some (c, ok _)) = exchanged next (exchange line frame c)
over_link next line frame (some (c, err e)) = some (c, err e)

unfoldable pub request_turns : ℕ → ℕ → Line → Text → Client → Option (Client × Result Trouble Frame)
unfolding over_link ensure_connected
request_turns zero fuel line frame c = some (c, err lost)
request_turns (suc n) fuel line frame c =
    over_link (request_turns n fuel line frame) line frame (ensure_connected fuel line c)

-- `request`: at most two connections.
unfoldable pub request : ℕ → Line → Text → Client → Option (Client × Result Trouble Frame)
unfolding request_turns
request fuel line frame c = request_turns 2 fuel line frame c

requested : ℕ → Line → Result ProtocolError Text → Client → Option (Client × Result Trouble Frame)
unfolding request
requested fuel line (ok frame) c = request fuel line frame c
requested fuel line (err e) c = some (c, err (garbled e))

data_of_reply : Client × Result Trouble Frame → Client × Result Trouble (List ℤ)
data_of_reply (c, ok f) = (c, ok f.bytes)
data_of_reply (c, err e) = (c, err e)

-- The typed helpers `read` and `write`.
unfoldable pub read_registers :
    ℕ → Line → ℤ → ℤ → Client → Option (Client × Result Trouble (List ℤ))
unfolding requested data_of_reply build_read
read_registers fuel line address count c =
    Option.map data_of_reply (requested fuel line (build_read address count) c)

unfoldable pub write_registers :
    ℕ → Line → ℤ → List ℤ → Client → Option (Client × Result Trouble Frame)
unfolding requested build_write
write_registers fuel line address data' c = requested fuel line (build_write address data') c
