-- ===== src/Tests/LocalClient.antt =====
-- The client of custom_components/rocket_r60v/client.py on a line that answers with no hexadecimal, and
-- the payload of clock.py.
use r60v_home_assistant.Base.{
  suc, ◌+◌, ◌*◌, ◌≤◌, ◌≡◌, refl, true, false, some, [], ◌∷◌, ltb, if◌then◌else◌,
}
use r60v_home_assistant.Base.Int.{pos, ◌-ℤ◌}
use r60v_home_assistant.Integration.Clock.{build_clock_payload}
use r60v_home_assistant.Base.Results.{err}
use r60v_home_assistant.Protocol.Text.{Text, codes}
use r60v_home_assistant.Protocol.Hex.{int_hex, hex_char, hex_value}
use r60v_home_assistant.Protocol.Frame
use r60v_home_assistant.Client.{bytes, silence, greeted, expected_response_len}
use r60v_home_assistant.Integration.Frames.{value_error, decode_data, data_of, parse_frame}
use r60v_home_assistant.Integration.Frames.Bridge.{as_bridge, parse_frame-as_bridge}
use r60v_home_assistant.Integration.Client.{not_hex, R60vClient, Line, send, request}
use r60v_home_assistant.Integration.Client.Bounds.{request-Spends}
use r60v_home_assistant.Integration.Client.Spends.{frames_in, openings_in}
use r60v_home_assistant.Integration.Client.Garbled.{request-garbled}

abbrev client : R60vClient
client = record {
  warmup = true;
  request_gap = 150;
  max_retries = 3;
  connected = true;
  last_request_at = 0;
  log = [];
  steps = 0;
}

abbrev frame : Text
frame = codes "w000200016969"

abbrev reply : Text
reply = codes "w00020001ZZ94"

abbrev garbling : Line
garbling = record {
  clock = λ k. 500 * k;
  stale_broken = λ k. false;
  hears = λ k. bytes reply;
  opening = λ k. greeted;
}

abbrev swallowing : Line
swallowing = record garbling { hears = λ k. if ltb k 2 then silence else bytes reply }

frame-size : expected_response_len frame ≡ some (pos 13)
unfolding expected_response_len int_hex hex_value hex_char
frame-size = refl

reply-misread : parse_frame true reply ≡ err value_error
unfolding parse_frame int_hex hex_value hex_char data_of decode_data
reply-misread = refl

request-garbled_example :
    request garbling frame client ≡ (send garbling frame (pos 13) client, err not_hex)
request-garbled_example =
    request-garbled garbling frame (pos 13) reply client refl frame-size refl refl reply-misread

request-Spends_example :
    (openings_in (request swallowing frame client).0.log ≤ openings_in client.log + 3)
    × (frames_in (request swallowing frame client).0.log
        ≤ frames_in client.log + 6 * suc client.max_retries)
request-Spends_example = request-Spends swallowing frame client

parse_frame-as_bridge_example : as_bridge (parse_frame true reply) ≡ Frame.parse_frame true reply
parse_frame-as_bridge_example = parse_frame-as_bridge true reply

-- Tuesday the 3rd of March 2026, 7:05.
tuesday :
    build_clock_payload
      (record { minute = 5; hour = 7; weekday = 1; day = 3; month = 3; year = 2026 })
    ≡ pos 0 ∷ pos 5 ∷ pos 7 ∷ pos 2 ∷ pos 3 ∷ pos 3 ∷ pos 26 ∷ []
unfolding build_clock_payload ◌-ℤ◌
tuesday = refl
