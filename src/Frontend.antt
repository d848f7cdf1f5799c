-- ===== src/Frontend.antt =====
-- The LAN front end (bridge/r60v_broker/tcp_frontend.py): how a request is cut out of a client's byte
-- stream, and how it is answered through the governor.
pub mod Stream
pub mod Dispatch
use r60v_home_assistant.Base.{
  ℕ, ◌+◌, Bool, true, false, Option, none, some, List, [], ◌∷◌, ◌++◌, ltb, if◌then◌else◌, length,
  take, drop,
}
use r60v_home_assistant.Base.Int.{ℤ, pos, negsuc, ◌+ℤ◌}
use r60v_home_assistant.Base.Results.{Result, ok, err}
use r60v_home_assistant.Protocol.Text.{Text, text_eq}
use r60v_home_assistant.Protocol.Hex.{int_hex}
use r60v_home_assistant.Protocol.Frame.{
  read, write, ProtocolError, Frame, build_frame, build_ack, parse_frame, slice,
}
use r60v_home_assistant.Governor.{Fault, connection, other}

-- What reading a request comes to: the request and what stays in the stream; the end of the stream
-- inside it; or the `ValueError` of `readexactly` for a negative count.
pub data Taken : Type 0 where
  got : Text → Text → Taken
  incomplete invalid : Taken

count_for : Option ℤ → ℤ
count_for none = pos 2
count_for (some n) = (n +ℤ n) +ℤ pos 2

-- How much follows an envelope.
unfoldable pub rest_count : Text → ℤ
unfolding count_for
rest_count envelope =
    if text_eq (take 1 envelope) write then count_for (int_hex (slice 5 9 envelope)) else pos 2

take_rest : Text → ℤ → Text → Taken
take_rest envelope (negsuc n) stream = invalid
take_rest envelope (pos n) stream =
    if ltb (length stream) n then incomplete else got (envelope ++ take n stream) (drop n stream)

unfoldable pub cut_at : Text → Text → Taken
unfolding take_rest rest_count
cut_at envelope stream = take_rest envelope (rest_count envelope) stream

-- `_read_request`, on everything the client will send.
unfoldable pub read_request : Text → Taken
unfolding cut_at
read_request stream =
    if ltb (length stream) 9 then incomplete else cut_at (take 9 stream) (drop 9 stream)

-- What the governor's read and write give for this request.
pub record Upstream : Type 0 where
  pub reads : ℤ → ℤ → Result Fault (List ℤ)
  pub writes : ℤ → List ℤ → Result Fault Frame

-- A reply, `None`, which drops the client, or an exception that is not caught.
pub data Answer : Type 0 where
  replies : Text → Answer
  drops raises : Answer

reply_with : Result ProtocolError Text → Answer
reply_with (ok text) = replies text
reply_with (err e) = raises

after_read : ℤ → ℤ → Result Fault (List ℤ) → Answer
unfolding reply_with build_frame
after_read address count (ok bytes) = reply_with (build_frame read address count bytes)
after_read address count (err connection) = drops
after_read address count (err other) = raises

after_write : Frame → Result Fault Frame → Answer
unfolding reply_with build_ack
after_write f (ok ack) = reply_with (build_ack write f.address f.count)
after_write f (err connection) = drops
after_write f (err other) = raises

handle : Upstream → Result ProtocolError Frame → Answer
unfolding after_read after_write
handle up (err e) = drops
handle up (ok f) =
    if text_eq f.command read
    then after_read f.address f.count (up.reads f.address f.count)
    else after_write f (up.writes f.address f.bytes)

unfoldable pub dispatch : Upstream → Text → Answer
unfolding handle parse_frame
dispatch up raw = handle up (parse_frame true raw)
