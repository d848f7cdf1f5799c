-- ===== src/Tests/Protocol.antt =====
-- Frames of bridge/r60v_broker/protocol.py.
use r60v_home_assistant.Base.{◌≡◌, refl, true, some, [], ◌∷◌, ◌++◌, map, arith}
use r60v_home_assistant.Base.Int.{pos}
use r60v_home_assistant.Base.Results.{ok, err}
use r60v_home_assistant.Protocol.Text.{Text, codes, encode, upper}
use r60v_home_assistant.Protocol.Hex.{format_hex, int_hex, hex_char, hex_value}
use r60v_home_assistant.Protocol.Hex.Reading.{int_hex-format_hex}
use r60v_home_assistant.Protocol.Frame.{
  write, ProtocolError, Frame, build_frame, parse_frame, is_command, supplied_of, data_of, checksum,
  total, sum,
}
use r60v_home_assistant.Protocol.RoundTrip.{parse_frame-build_frame, sent}
use r60v_home_assistant.Protocol.Corruption.{parse_frame-corrupted}

write-IsCommand : is_command write ≡ true
write-IsCommand = refl

int_hex-format_hex_example : int_hex (format_hex 4 (pos 0xB007)) ≡ some (pos 0xB007)
int_hex-format_hex_example = int_hex-format_hex 4 (pos 0xB007)

parse_frame-build_frame_example :
    (raw' : Text) × (build_frame write (pos 2) (pos 1) (pos 105 ∷ []) ≡ ok raw')
    × (parse_frame true raw'
        ≡ ok (record {
          command = write;
          address = pos 2;
          count = pos 1;
          bytes = map sent (pos 105 ∷ []);
          supplied = supplied_of raw';
          raw = raw';
        }))
parse_frame-build_frame_example =
    parse_frame-build_frame write 2 1 (pos 105 ∷ []) write-IsCommand (omega arith) (omega arith)

-- The write of 105 degrees at address 2, in the pieces around the character that is garbled.
abbrev before : Text
before = codes "w00020001"

abbrev written : Frame
written = record {
  command = write;
  address = pos 2;
  count = pos 1;
  bytes = pos 105 ∷ [];
  supplied = codes "69";
  raw = codes "w000200016969";
}

written-parses : parse_frame true ((before ++ b'6' ∷ b'9' ∷ []) ++ codes "69") ≡ ok written
unfolding parse_frame int_hex hex_value data_of checksum format_hex total sum encode upper hex_char
written-parses = refl

parse_frame-corrupted_example :
    (e : ProtocolError) × (parse_frame true ((before ++ b'7' ∷ b'9' ∷ []) ++ codes "69") ≡ err e)
parse_frame-corrupted_example =
    parse_frame-corrupted before (b'9' ∷ []) (codes "69") b'6' b'7' written refl (omega arith)
      (omega arith) (λ e. omega arith) written-parses
