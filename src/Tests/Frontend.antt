-- ===== src/Tests/Frontend.antt =====
-- The LAN front end of bridge/r60v_broker/tcp_frontend.py with one read and one write.
use r60v_home_assistant.Base.{◌≡◌, refl, true, some, List, [], ◌∷◌, map, arith}
use r60v_home_assistant.Base.Int.{pos}
use r60v_home_assistant.Base.Results.{ok}
use r60v_home_assistant.Protocol.Text.{Text, codes}
use r60v_home_assistant.Protocol.Frame.{write, Frame, build_read, parse_frame}
use r60v_home_assistant.Protocol.RoundTrip.{sent}
use r60v_home_assistant.Frontend.{Upstream, replies, dispatch}
use r60v_home_assistant.Frontend.Stream.{
  Request, fetches, stores, print, read_requests, joined, requests-cut,
}
use r60v_home_assistant.Frontend.Dispatch.{dispatch-read}

abbrev asked : List Request
asked = fetches 0xB000 1 ∷ stores 2 (pos 105 ∷ []) ∷ []

abbrev acknowledged : Frame
acknowledged = record {
  command = write;
  address = pos 2;
  count = pos 1;
  bytes = [];
  supplied = codes "94";
  raw = codes "w00020001OK94";
}

abbrev up : Upstream
up = record { reads = λ a n. ok (pos 93 ∷ []); writes = λ a bs. ok acknowledged }

requests-cut_example :
    (texts : List Text) × (map print asked ≡ map ok texts)
    × (read_requests 2 (joined texts (codes "r00")) ≡ some (texts, codes "r00"))
requests-cut_example =
    requests-cut asked (codes "r00") ((omega arith, omega arith), ((omega arith, omega arith), tt))

dispatch-read_example :
    (request : Text) × (reply : Text) × (f : Frame) × (build_read (pos 0xB000) (pos 1) ≡ ok request)
    × (dispatch up request ≡ replies reply)
    × (parse_frame true reply ≡ ok f)
    × (f.bytes ≡ map sent (pos 93 ∷ []))
dispatch-read_example = dispatch-read 0xB000 1 (pos 93 ∷ []) up (omega arith) (omega arith) refl
