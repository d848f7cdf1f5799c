-- ===== src/Integration/Frames.antt =====
-- The parser of custom_components/rocket_r60v/protocol.py. Its frames are built as in the bridge's
-- protocol.py; its `decode_data` lets the `ValueError` of `int` through.
pub mod Bridge
use r60v_home_assistant.Base.{
  ◌%◌, ◌==◌, Bool, not, ◌&&◌, Option, none, some, List, [], ltb, if◌then◌else◌, length, take,
}
use r60v_home_assistant.Base.Int.{ℤ}
use r60v_home_assistant.Base.Results.{Result, ok, err, ◌>>=◌, ◌>>◌, guard, or_fail}
use r60v_home_assistant.Protocol.Text.{Text, text_eq, upper}
use r60v_home_assistant.Protocol.Hex.{int_hex}
use r60v_home_assistant.Protocol.Frame.{
  ProtocolError, frame_too_short, invalid_command, bad_envelope, odd_length, checksum_mismatch,
  Frame, ack, checksum, is_command, decode_pairs, slice, body_of, supplied_of, payload_of,
}

-- A `ProtocolError`, or a plain `ValueError`.
pub data Misread : Type 0 where
  protocol_error : ProtocolError → Misread
  value_error : Misread

unfoldable pub decode_data : Text → Result Misread (List ℤ)
unfolding decode_pairs
decode_data s =
    if length s % 2 == 1
    then err (protocol_error odd_length)
    else or_fail (decode_pairs s) value_error

unfoldable pub data_of : Text → Result Misread (List ℤ)
unfolding decode_data
data_of payload = if text_eq payload ack then ok [] else decode_data payload

unfoldable pub parse_frame : Bool → Text → Result Misread Frame
parse_frame verify raw = do
  guard (not (ltb (length raw) 11)) (protocol_error frame_too_short)
  guard (is_command (take 1 raw)) (protocol_error invalid_command)
  address ← or_fail (int_hex (slice 1 5 raw)) (protocol_error bad_envelope)
  count ← or_fail (int_hex (slice 5 9 raw)) (protocol_error bad_envelope)
  bytes ← data_of (payload_of raw)
  guard (not (verify && not (text_eq (checksum (body_of raw)) (upper (supplied_of raw)))))
      (protocol_error checksum_mismatch)
  ok (record {
    command = take 1 raw;
    address = address;
    count = count;
    bytes = bytes;
    supplied = supplied_of raw;
    raw = raw;
  })
