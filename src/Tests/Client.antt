-- ===== src/Tests/Client.antt =====
-- The client of bridge/r60v_broker/client.py on lines that swallow a request or refuse a connection.
use r60v_home_assistant.Base.{
  ◌*◌, ◌≡◌, refl, Bool, true, false, some, [], ◌++◌, arith, replicate, min, ltb, if◌then◌else◌,
}
use r60v_home_assistant.Base.Int.{pos}
use r60v_home_assistant.Base.Results.{ok}
use r60v_home_assistant.Protocol.Text.{Text, codes, encode, upper}
use r60v_home_assistant.Protocol.Hex.{format_hex, int_hex, hex_char, hex_value}
use r60v_home_assistant.Protocol.Frame.{write, Frame, parse_frame, data_of, checksum, total, sum}
use r60v_home_assistant.Client.{
  bytes, silence, refused, greeted, sends, Client, Line, expected_response_len, request,
  connect_until,
}
use r60v_home_assistant.Client.Retry.{request-swallowed}
use r60v_home_assistant.Client.Backoff.{doubled, attempts_log, connect_until-greeted}

abbrev client_with : Bool → Client
client_with up = record {
  backoff_initial = 1000;
  backoff_max = 30000;
  warmup = false;
  request_gap = 200;
  max_retries = 3;
  connected = up;
  last_request_at = 0;
  log = [];
  steps = 0;
}

-- The write of 105 degrees at address 2, and its acknowledgement.
abbrev frame : Text
frame = codes "w000200016969"

abbrev reply : Text
reply = codes "w00020001OK94"

abbrev acknowledged : Frame
acknowledged = record {
  command = write;
  address = pos 2;
  count = pos 1;
  bytes = [];
  supplied = codes "94";
  raw = reply;
}

-- The line swallows the first two requests, and refuses the first two connections.
abbrev line : Line
line = record {
  clock = λ k. 500 * k;
  hears = λ k. if ltb k 2 then silence else bytes reply;
  opening = λ k. if ltb k 2 then refused else greeted;
}

reply-parses : parse_frame true reply ≡ ok acknowledged
unfolding parse_frame int_hex hex_value data_of checksum format_hex total sum encode upper hex_char
reply-parses = refl

frame-size : expected_response_len frame ≡ some (pos 13)
unfolding expected_response_len int_hex hex_value hex_char
frame-size = refl

request-swallowed_example :
    (d : Client) × (request 1 line frame (client_with true) ≡ some (d, ok acknowledged))
    × (d.log ≡ (client_with true).log ++ replicate 3 (sends frame (pos 13)))
    × (d.connected ≡ true)
request-swallowed_example =
    request-swallowed 1 2 line frame reply (pos 13) acknowledged (client_with true) refl frame-size
      (omega arith) (λ i lt. ground arith) refl reply-parses

connect_until-greeted_example :
    (d : Client) × (connect_until 3 (min (doubled 1000 0) 30000) line (client_with false)
      ≡ some (d, ok tt))
    × (d.connected ≡ true)
    × (d.log ≡ (client_with false).log ++ attempts_log 30000 1000 0 2)
connect_until-greeted_example =
    connect_until-greeted 2 0 line (client_with false) refl refl (λ k lt. ground arith) refl
