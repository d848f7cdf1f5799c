-- ===== src/Tests/Emulator.antt =====
-- The emulator of bridge/r60v_broker/emulator.py with its memory cleared.
use r60v_home_assistant.Base.{◌≡◌, refl, true, List, [], ◌∷◌, map, arith, replicate, set, some}
use r60v_home_assistant.Base.Int.{pos, low_byte, ◌+ℤ◌}
use r60v_home_assistant.Protocol.Text.{codes}
use r60v_home_assistant.Protocol.Frame.{Frame, build_read, build_write, is_ack}
use r60v_home_assistant.Protocol.RoundTrip.{sent}
use r60v_home_assistant.Protocol.Text.{Text, encode, utf8, upper}
use r60v_home_assistant.Protocol.Hex.{int_hex, hex_value, hex_char, format_hex}
use r60v_home_assistant.Protocol.Frame.{
  hello, parse_frame, data_of, build_frame, build_ack, encode_data, checksum, total, sum,
}
use r60v_home_assistant.Frontend.Stream.{fetches, stores, joined}
use r60v_home_assistant.Emulator.{MachineModel, replies, process, read_memory, write_memory}
use r60v_home_assistant.Emulator.Defaults.{new_machine}
use r60v_home_assistant.Integration.Profile.{decimal, digits}
use r60v_home_assistant.State.Snapshot.{StateSnapshot, settings_byte, le16}
use r60v_home_assistant.State.Entities.{time_at, two_digits}
use r60v_home_assistant.Emulator.Session.{handle_client, handle_client-replies}
use r60v_home_assistant.Emulator.Wire.{Exchanged, write_read}

abbrev cleared : MachineModel
cleared = record {
  settings = replicate 256 0;
  brew_temp = pos 92;
  service_temp = pos 118;
  decibar = pos 0;
  shown = codes "READY";
  clock_fields = [];
}

write_read_example :
    (m : MachineModel) × (f : Frame) × (g : Frame) × Exchanged
      (build_write (pos 2) (pos 105 ∷ pos 123 ∷ []))
      cleared
      m
      f
    × (is_ack f ≡ true)
    × Exchanged (build_read (pos 2) (pos 2)) m m g
    × (g.bytes ≡ map sent (pos 105 ∷ pos 123 ∷ []))
write_read_example = write_read 2 (pos 105 ∷ pos 123 ∷ []) cleared refl (omega arith) (omega arith)

-- A write of 105 degrees, and a read of it.
abbrev requests : List Text
requests = codes "w000200016969" ∷ codes "r00020001F5" ∷ []

abbrev warmed : MachineModel
warmed = record cleared { settings = set (replicate 256 0) 2 105 }

written : process (codes "w000200016969") cleared ≡ (warmed, replies (codes "w00020001OK94"))
unfolding process parse_frame data_of int_hex hex_value hex_char checksum total sum encode utf8
    upper format_hex write_memory build_ack low_byte ◌+ℤ◌
written = refl

fetched : process (codes "r00020001F5") warmed ≡ (warmed, replies (codes "r000200016964"))
unfolding process parse_frame data_of int_hex hex_value hex_char checksum total sum encode utf8
    upper format_hex read_memory build_frame encode_data low_byte ◌+ℤ◌
fetched = refl

handle_client-replies_example :
    handle_client (joined requests []) cleared
    ≡ (warmed, hello ∷ codes "w00020001OK94" ∷ codes "r000200016964" ∷ [])
unfolding build_write build_read build_frame encode_data low_byte checksum total sum encode utf8
    format_hex hex_char
handle_client-replies_example =
    handle_client-replies (stores 2 (pos 105 ∷ []) ∷ fetches 2 1 ∷ []) requests cleared warmed
      (codes "w00020001OK94" ∷ codes "r000200016964" ∷ [])
      ((omega arith, omega arith), ((omega arith, omega arith), tt)) refl
      (
        warmed,
        codes "w00020001OK94",
        codes "r000200016964" ∷ [],
        written,
        refl,
        (warmed, codes "r000200016964", [], fetched, refl, (refl, refl)),
      )

-- The settings of a new machine, as the bridge's registry reads them.
abbrev first_settings : StateSnapshot
first_settings = record { settings = map pos (new_machine []).settings; live = [] }

first_auto_on : time_at 0x51 0x52 first_settings ≡ codes "14:00"
unfolding time_at two_digits settings_byte new_machine decimal digits low_byte
first_auto_on = refl

first_count : le16 first_settings.settings 0x4D ≡ some 500
unfolding le16 new_machine low_byte
first_count = refl
