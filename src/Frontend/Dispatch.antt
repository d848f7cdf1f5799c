-- ===== src/Frontend/Dispatch.antt =====
-- A client of the front end gets what a client of the machine would get.
use r60v_home_assistant.Base.{ℕ, ◌<◌, ◌≡◌, refl, ap, ◌∙◌, true, List, [], map}
use r60v_home_assistant.Base.Int.{ℤ, pos}
use r60v_home_assistant.Base.Results.{ok}
use r60v_home_assistant.Protocol.Text.{Text, text_eq}
use r60v_home_assistant.Protocol.Frame.{read, Frame, build_frame, build_read, parse_frame}
use r60v_home_assistant.Protocol.RoundTrip.{parse_frame-build_frame, sent}
use r60v_home_assistant.Frontend.{Upstream, replies, dispatch, handle, after_read, reply_with}

dispatch-ok :
    (up : Upstream) (request : Text) (f : Frame)
    → parse_frame true request ≡ ok f
    → dispatch up request ≡ handle up (ok f)
unfolding dispatch
dispatch-ok up request f e = ap (handle up) e

handle-read :
    (up : Upstream) (f : Frame)
    → text_eq f.command read ≡ true
    → handle up (ok f) ≡ after_read f.address f.count (up.reads f.address f.count)
unfolding handle
handle-read up f e = rw e refl

after_read-ok :
    (address count : ℤ) (bytes : List ℤ) (reply : Text)
    → build_frame read address count bytes ≡ ok reply
    → after_read address count (ok bytes) ≡ replies reply
unfolding after_read reply_with
after_read-ok address count bytes reply e = ap reply_with e

-- A read that a client prints is answered, when the governor's read gives bytes, by a reply that
-- parses to those bytes, by their low eight bits.
pub dispatch-read :
    (a n : ℕ) (bytes : List ℤ) (up : Upstream)
    → a < 65536
    → n < 65536
    → up.reads (pos a) (pos n) ≡ ok bytes
    → (request : Text) × (reply : Text) × (f : Frame) × (build_read (pos a) (pos n) ≡ ok request)
      × (dispatch up request ≡ replies reply)
      × (parse_frame true reply ≡ ok f)
      × (f.bytes ≡ map sent bytes)
unfolding build_read
dispatch-read a n bytes up h k given =
    let (request, printed, parsed) = parse_frame-build_frame read a n [] refl h k in
    let (reply, answered, reply_parsed) = parse_frame-build_frame read a n bytes refl h k in
    (
      request,
      reply,
      _,
      printed,
      dispatch-ok up request _ parsed
          ∙ handle-read up _ refl
          ∙ ap (after_read (pos a) (pos n)) given
          ∙ after_read-ok (pos a) (pos n) bytes reply answered,
      reply_parsed,
      refl,
    )
