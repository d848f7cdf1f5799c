-- ===== src/Integration/Client.antt =====
-- The socket client of custom_components/rocket_r60v/client.py. As in Client.antt the socket is a
-- parameter, by the number of the step; times are whole milliseconds.
pub mod Spends
pub mod Bounds
pub mod Garbled
use r60v_home_assistant.Base.{
  ℕ, zero, suc, ◌+◌, ◌-◌, Bool, true, false, Option, none, some, List, [], ◌∷◌, ◌++◌, ltb, ◌==◌,
  if◌then◌else◌, take,
}
use r60v_home_assistant.Base.Int.{ℤ, pos}
use r60v_home_assistant.Base.Results.{Result, ok, err}
use r60v_home_assistant.Protocol.Text.{Text}
use r60v_home_assistant.Protocol.Frame.{ProtocolError, Frame, build_read, build_write}
use r60v_home_assistant.Protocol.Address.{settings_base, settings_len}
use r60v_home_assistant.Client.{
  Heard, bytes, silence, short_read, broken, Opening, refused, mute, severed, greeted, Wire, sends,
  opens, closes, expected_response_len,
}
use r60v_home_assistant.Integration.Frames.{Misread, protocol_error, value_error, parse_frame}

-- `R60VConnectionError`, `ProtocolError`, what the socket raises, and `ValueError`.
pub data Trouble : Type 0 where
  lost io not_hex : Trouble
  garbled : ProtocolError → Trouble

pub record R60vClient : Type 0 where
  pub warmup : Bool
  pub request_gap : ℕ
  pub max_retries : ℕ
  pub connected : Bool
  pub last_request_at : ℕ
  pub log : List Wire
  pub steps : ℕ

-- `stale_broken` is whether draining the stale bytes meets a broken socket.
pub record Line : Type 0 where
  pub clock : ℕ → ℕ
  pub stale_broken : ℕ → Bool
  pub hears : ℕ → Heard
  pub opening : ℕ → Opening

-- How long `_pace` sleeps.
unfoldable pub pace : ℕ → R60vClient → ℕ
pace now c =
    if c.request_gap == 0
    then 0
    else if ltb now (c.last_request_at + c.request_gap)
    then c.last_request_at + c.request_gap - now
    else 0

-- `_pace`, and then the frame is written.
unfoldable pub send : Line → Text → ℤ → R60vClient → R60vClient
unfolding pace
send line frame want c = record c {
  last_request_at = line.clock c.steps + pace (line.clock c.steps) c;
  log = c.log ++ sends frame want ∷ [];
  steps = c.steps + 1;
}

read_as : Result Misread Frame → Result Trouble Frame
read_as (ok f) = ok f
read_as (err (protocol_error e)) = err (garbled e)
read_as (err value_error) = err not_hex

-- The end of a try: `again` is what follows a swallowed request.
after_try :
    Heard → R60vClient × Result Trouble Frame → R60vClient → R60vClient × Result Trouble Frame
unfolding read_as parse_frame
after_try (bytes raw) again c = (c, read_as (parse_frame true raw))
after_try silence again c = again
after_try short_read again c = (c, err lost)
after_try broken again c = (c, err io)

-- A try, if the stale bytes could be drained: `_drain`, and the loop's body.
drained : Bool → R60vClient × Result Trouble Frame → R60vClient → R60vClient × Result Trouble Frame
drained true sent c = (record c { steps = c.steps + 1 }, err io)
drained false sent c = sent

-- The tries of `_exchange`, with the number that may follow the first.
unfoldable pub tries : Line → Text → ℤ → ℕ → R60vClient → R60vClient × Result Trouble Frame
unfolding after_try drained send
tries line frame want zero c =
    let d = send line frame want c in
    drained (line.stale_broken c.steps) (after_try (line.hears c.steps) (d, err lost) d) c
tries line frame want (suc n) c =
    let d = send line frame want c in
    let again = tries line frame want n d in
    drained (line.stale_broken c.steps) (after_try (line.hears c.steps) again d) c

exchange_for : Line → Text → Option ℤ → R60vClient → R60vClient × Result Trouble Frame
unfolding tries
exchange_for line frame none c = (c, err not_hex)
exchange_for line frame (some want) c = tries line frame want c.max_retries c

-- `_exchange`; `int` reads the length out of the request itself.
unfoldable pub exchange : Line → Text → R60vClient → R60vClient × Result Trouble Frame
unfolding exchange_for expected_response_len
exchange line frame c = exchange_for line frame (expected_response_len frame) c

-- `_drop`
unfoldable pub drop_link : R60vClient → R60vClient
drop_link c = if c.connected then record c { connected = false; log = c.log ++ closes ∷ [] } else c

-- `_warm_up`: a reply that is lost or garbled does not matter.
warmed : R60vClient × Result Trouble Frame → R60vClient × Result Trouble (Unit {0})
warmed (c, ok f) = (c, ok tt)
warmed (c, err lost) = (c, ok tt)
warmed (c, err (garbled e)) = (c, ok tt)
warmed (c, err io) = (c, err io)
warmed (c, err not_hex) = (c, err not_hex)

warm_up : Line → Result ProtocolError Text → R60vClient → R60vClient × Result Trouble (Unit {0})
unfolding warmed exchange
warm_up line (ok frame) c = if c.warmup then warmed (exchange line frame c) else (c, ok tt)
warm_up line (err e) c = if c.warmup then (c, err (garbled e)) else (c, ok tt)

-- The opening, and `_read_greeting`; a wrong greeting is only logged.
opened : Line → Opening → R60vClient → R60vClient × Result Trouble (Unit {0})
unfolding warm_up build_read
opened line refused c = (c, err io)
opened line mute c = (record c { connected = true }, err lost)
opened line severed c = (record c { connected = true }, err io)
opened line greeted c =
    warm_up line (build_read (pos settings_base) (pos settings_len)) (record c { connected = true })

open_from : Line → R60vClient → R60vClient × Result Trouble (Unit {0})
unfolding opened
open_from line c =
    opened line (line.opening c.steps) (record c { log = c.log ++ opens ∷ []; steps = c.steps + 1 })

unfoldable pub connect : Line → R60vClient → R60vClient × Result Trouble (Unit {0})
unfolding open_from drop_link
connect line c = open_from line (drop_link c)

-- The end of an attempt of `request`: what is caught drops the connection, and the next attempt
-- follows; a `ValueError` is not caught.
exchanged :
    (R60vClient → R60vClient × Result Trouble Frame)
    → R60vClient × Result Trouble Frame
    → R60vClient × Result Trouble Frame
unfolding drop_link
exchanged next (c, ok f) = (c, ok f)
exchanged next (c, err not_hex) = (c, err not_hex)
exchanged next (c, err _) = next (drop_link c)

over_link :
    (R60vClient → R60vClient × Result Trouble Frame)
    → Line
    → Text
    → R60vClient × Result Trouble (Unit {0})
    → R60vClient × Result Trouble Frame
unfolding exchanged exchange drop_link
over_link next line frame (c, ok _) = exchanged next (exchange line frame c)
over_link next line frame (c, err not_hex) = (c, err not_hex)
over_link next line frame (c, err _) = next (drop_link c)

connected_first : Line → R60vClient → R60vClient × Result Trouble (Unit {0})
unfolding connect
connected_first line c = if c.connected then (c, ok tt) else connect line c

unfoldable pub attempts : ℕ → Line → Text → R60vClient → R60vClient × Result Trouble Frame
unfolding over_link connected_first
attempts zero line frame c = (c, err lost)
attempts (suc n) line frame c =
    over_link (attempts n line frame) line frame (connected_first line c)

-- `request`, behind its lock: three attempts.
unfoldable pub request : Line → Text → R60vClient → R60vClient × Result Trouble Frame
unfolding attempts
request line frame c = attempts 3 line frame c

data_of_reply : R60vClient × Result Trouble Frame → R60vClient × Result Trouble (List ℤ)
data_of_reply (c, ok f) = (c, ok f.bytes)
data_of_reply (c, err e) = (c, err e)

requested : Line → Result ProtocolError Text → R60vClient → R60vClient × Result Trouble Frame
unfolding request
requested line (ok frame) c = request line frame c
requested line (err e) c = (c, err (garbled e))

-- The typed helpers `read` and `write`.
unfoldable pub read_registers : Line → ℤ → ℤ → R60vClient → R60vClient × Result Trouble (List ℤ)
unfolding requested data_of_reply build_read
read_registers line address count c = data_of_reply (requested line (build_read address count) c)

unfoldable pub write_registers : Line → ℤ → List ℤ → R60vClient → R60vClient × Result Trouble Frame
unfolding requested build_write
write_registers line address bytes' c = requested line (build_write address bytes') c
