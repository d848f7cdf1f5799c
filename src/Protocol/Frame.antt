-- ===== src/Protocol/Frame.antt =====
-- Building and parsing frames: protocol.py from its constants down to `parse_frame`.
pub mod Pieces
use r60v_home_assistant.Base.{
  ℕ, ◌+◌, ◌-◌, ◌%◌, Bool, not, ◌&&◌, ◌||◌, Option, none, some, List, [], ◌∷◌, ◌++◌, ltb, ◌==◌,
  if◌then◌else◌, length, take, drop,
}
use r60v_home_assistant.Base.Int.{ℤ, pos, low_byte}
use r60v_home_assistant.Base.Results.{Result, ok, err, ◌>>=◌, ◌>>◌, guard, or_fail}
use r60v_home_assistant.Protocol.Text.{Text, codes, text_eq, encode, upper}
use r60v_home_assistant.Protocol.Hex.{format_hex, int_hex}

abbrev pub hello : Text
hello = codes "*HELLO*"

abbrev pub ack : Text
ack = codes "OK"

abbrev pub read : Text
read = codes "r"

abbrev pub write : Text
write = codes "w"

-- The messages of `ProtocolError`, one constructor for each place that raises it.
pub data ProtocolError : Type 0 where
  frame_too_short invalid_command bad_envelope odd_length non_hex checksum_mismatch : ProtocolError

unfoldable pub sum : List ℕ → ℕ
sum [] = 0
sum (b ∷ bs) = b + sum bs

unfoldable pub total : Text → ℕ
total message = sum (encode message) % 256

unfoldable pub checksum : Text → Text
checksum message = format_hex 2 (pos (total message))

-- `None` and the empty list encode alike, so both are the empty list.
unfoldable pub encode_data : List ℤ → Text
encode_data [] = []
encode_data (b ∷ bs) = format_hex 2 (pos (low_byte b)) ++ encode_data bs

-- The list comprehension over `range(0, len(hex_str), 2)`.
unfoldable pub decode_pairs : Text → Option (List ℤ)
decode_pairs [] = some []
decode_pairs (a ∷ []) = elim (int_hex (a ∷ [])) [ none ↦ none | some v ↦ some (v ∷ []) ]
decode_pairs (a ∷ b ∷ s) =
    let rest = decode_pairs s in
    elim (int_hex (a ∷ b ∷ [])) [
      | none ↦ none
      | some v ↦ elim rest [ none ↦ none | some vs ↦ some (v ∷ vs) ]
    ]

unfoldable pub decode_data : Text → Result ProtocolError (List ℤ)
unfolding decode_pairs
decode_data s = if length s % 2 == 1 then err odd_length else or_fail (decode_pairs s) non_hex

abbrev pub is_command : Text → Bool
is_command c = text_eq c read || text_eq c write

unfoldable pub build_envelope : Text → ℤ → ℤ → Result ProtocolError Text
build_envelope command address count =
    if is_command command
    then ok (command ++ (format_hex 4 address ++ format_hex 4 count))
    else err invalid_command

unfoldable pub with_checksum : Text → Text
with_checksum body = body ++ checksum body

unfoldable pub build_frame : Text → ℤ → ℤ → List ℤ → Result ProtocolError Text
unfolding build_envelope with_checksum
build_frame command address count bytes = do
  envelope ← build_envelope command address count
  ok (with_checksum (envelope ++ encode_data bytes))

unfoldable pub build_read : ℤ → ℤ → Result ProtocolError Text
unfolding build_frame
build_read address count = build_frame read address count []

unfoldable pub build_write : ℤ → List ℤ → Result ProtocolError Text
unfolding build_frame
build_write address bytes = build_frame write address (pos (length bytes)) bytes

unfoldable pub build_ack : Text → ℤ → ℤ → Result ProtocolError Text
unfolding build_envelope with_checksum
build_ack command address count = do
  envelope ← build_envelope command address count
  ok (with_checksum (envelope ++ ack))

pub record Frame : Type 0 where
  pub command : Text
  pub address : ℤ
  pub count : ℤ
  pub bytes : List ℤ
  pub supplied : Text
  pub raw : Text

-- `raw[9:11] == ACK`
unfoldable pub is_ack : Frame → Bool
is_ack f = text_eq (take 2 (drop 9 f.raw)) ack

-- `raw[i:j]` for `i <= j`
abbrev pub slice : ℕ → ℕ → Text → Text
slice i j s = take (j - i) (drop i s)

-- `raw[:-2]`, `raw[-2:]` and `raw[9:-2]` of a text of eleven characters or more
abbrev pub body_of : Text → Text
body_of raw = take (length raw - 2) raw

abbrev pub supplied_of : Text → Text
supplied_of raw = drop (length raw - 2) raw

abbrev pub payload_of : Text → Text
payload_of raw = take (length raw - 11) (drop 9 raw)

unfoldable pub data_of : Text → Result ProtocolError (List ℤ)
unfolding decode_data
data_of payload = if text_eq payload ack then ok [] else decode_data payload

unfoldable pub parse_frame : Bool → Text → Result ProtocolError Frame
parse_frame verify raw = do
  guard (not (ltb (length raw) 11)) frame_too_short
  guard (is_command (take 1 raw)) invalid_command
  address ← or_fail (int_hex (slice 1 5 raw)) bad_envelope
  count ← or_fail (int_hex (slice 5 9 raw)) bad_envelope
  bytes ← data_of (payload_of raw)
  guard (not (verify && not (text_eq (checksum (body_of raw)) (upper (supplied_of raw)))))
      checksum_mismatch
  ok (record {
    command = take 1 raw;
    address = address;
    count = count;
    bytes = bytes;
    supplied = supplied_of raw;
    raw = raw;
  })
