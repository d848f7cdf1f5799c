-- ===== src/Emulator/Wire.antt =====
-- A write and a read over the wire: the requests that a client prints, as the emulator answers them.
use r60v_home_assistant.Base.{
  ℕ, suc, ◌+◌, ◌≤◌, ◌<◌, ◌≡◌, refl, ap, subst, ◌∙◌, Bool, true, false, some, List, [], ◌∷◌, map,
  arith, length,
}
use r60v_home_assistant.Base.Int.{ℤ, pos, negsuc, low_byte}
use r60v_home_assistant.Base.Results.{Result, ok}
use r60v_home_assistant.Protocol.Text.{Text, text_eq}
use r60v_home_assistant.Protocol.Frame.{
  read, write, ProtocolError, Frame, build_frame, build_read, build_write, build_ack, is_ack,
  parse_frame,
}
use r60v_home_assistant.Protocol.RoundTrip.{parse_frame-build_frame, parse_frame-build_ack, sent}
use r60v_home_assistant.Emulator.{
  MachineModel, replies, process, handle, answer_read, answer_write, reply_with, read_memory,
  write_memory,
}
use r60v_home_assistant.Emulator.Memory.{read_memory-write_memory}

low_byte-sent : (b : ℤ) → low_byte (sent b) ≡ low_byte b
unfolding low_byte
low_byte-sent (pos n) = omega arith
low_byte-sent (negsuc n) = omega arith

map-low_byte-sent : (bytes : List ℤ) → map low_byte (map sent bytes) ≡ map low_byte bytes
map-low_byte-sent [] = refl
map-low_byte-sent (b ∷ bs) = rw (low_byte-sent b) (rw (map-low_byte-sent bs) refl)

map-sent-pos : (bytes : List ℤ) → map sent (map pos (map low_byte bytes)) ≡ map sent bytes
map-sent-pos [] = refl
map-sent-pos (b ∷ bs) = rw (ap pos (low_byte-sent b)) (rw (map-sent-pos bs) refl)

length-map-sent : (bytes : List ℤ) → length (map sent bytes) ≡ length bytes
length-map-sent [] = refl
length-map-sent (b ∷ bs) = ap suc (length-map-sent bs)

answer_read-ok :
    (address count : ℤ) (bytes : List ℕ) (reply : Text)
    → build_frame read address count (map pos bytes) ≡ ok reply
    → answer_read address count (some bytes) ≡ replies reply
unfolding answer_read reply_with
answer_read-ok address count bytes reply e = ap reply_with e

answer_write-ok :
    (f : Frame) (r : MachineModel × Bool) (reply : Text)
    → r.1 ≡ true
    → build_ack write f.address f.count ≡ ok reply
    → answer_write f r ≡ (r.0, replies reply)
unfolding answer_write reply_with
answer_write-ok f (m, true) reply done e = ap (λ x. (m, reply_with x)) e
answer_write-ok f (m, false) reply done e = cc

process-ok :
    (request : Text) (f : Frame) (m : MachineModel)
    → parse_frame true request ≡ ok f
    → process request m ≡ handle (ok f) m
unfolding process
process-ok request f m e = ap (λ r. handle r m) e

handle-read :
    (f : Frame) (m : MachineModel)
    → text_eq f.command read ≡ true
    → handle (ok f) m ≡ (m, answer_read f.address f.count (read_memory f.address f.count m))
unfolding handle
handle-read f m e = rw e refl

handle-write :
    (f : Frame) (m : MachineModel)
    → text_eq f.command read ≡ false
    → handle (ok f) m ≡ answer_write f (write_memory f.address f.bytes m)
unfolding handle
handle-write f m e = rw e refl

-- The exchange of a request and its reply: what the client prints, what the emulator answers, and
-- what the client parses.
abbrev pub Exchanged : Result ProtocolError Text → MachineModel → MachineModel → Frame → Type 0
Exchanged printed m m' f =
    (request : Text) × (reply : Text) × (printed ≡ ok request)
    × (process request m ≡ (m', replies reply))
    × (parse_frame true reply ≡ ok f)

write-Exchanged :
    (a : ℕ) (bytes : List ℤ) (m : MachineModel)
    → length m.settings ≡ 256
    → a < 256
    → a + length bytes ≤ 256
    → (f : Frame) × (is_ack f ≡ true)
      × Exchanged (build_write (pos a) bytes) m (write_memory (pos a) (map sent bytes) m).0 f
unfolding build_write
write-Exchanged a bytes m size h k =
    let (request, printed, parsed) =
      parse_frame-build_frame write a (length bytes) bytes refl (omega arith) (omega arith) in
    let (reply, f, ack_printed, ack_parsed, c, a', n', d, acked) =
      parse_frame-build_ack write a (length bytes) refl (omega arith) (omega arith) in
    let long = length-map-sent bytes in
    let done = (read_memory-write_memory a (map sent bytes) m size h (omega arith)).0 in
    (
      f,
      acked,
      (
        request,
        reply,
        printed,
        process-ok request _ m parsed
            ∙ handle-write _ m refl
            ∙ answer_write-ok _ (write_memory (pos a) (map sent bytes) m) reply done ack_printed,
        ack_parsed,
      ),
    )

read-Exchanged :
    (a n : ℕ) (bytes : List ℕ) (m : MachineModel)
    → a < 65536
    → n < 65536
    → read_memory (pos a) (pos n) m ≡ some bytes
    → (f : Frame) × (f.bytes ≡ map sent (map pos bytes))
      × Exchanged (build_read (pos a) (pos n)) m m f
unfolding build_read
read-Exchanged a n bytes m h k e =
    let (request, printed, parsed) = parse_frame-build_frame read a n [] refl h k in
    let (reply, answered, reply_parsed) =
      parse_frame-build_frame read a n (map pos bytes) refl h k in
    (
      _,
      refl,
      (
        request,
        reply,
        printed,
        process-ok request _ m parsed
            ∙ handle-read _ m refl
            ∙ ap (λ o. (m, answer_read (pos a) (pos n) o)) e
            ∙ ap (λ o. (m, o)) (answer_read-ok (pos a) (pos n) bytes reply answered),
        reply_parsed,
      ),
    )

-- A write inside the emulator's 256 bytes is acknowledged, and a read of the same addresses then
-- answers with the low eight bits of each byte that was written. Both replies pass the client's
-- parser with the checksum verified.
pub write_read :
    (a : ℕ) (bytes : List ℤ) (m : MachineModel)
    → length m.settings ≡ 256
    → a < 256
    → a + length bytes ≤ 256
    → (m' : MachineModel) × (f : Frame) × (g : Frame) × Exchanged (build_write (pos a) bytes) m m' f
      × (is_ack f ≡ true)
      × Exchanged (build_read (pos a) (pos (length bytes))) m' m' g
      × (g.bytes ≡ map sent bytes)
write_read a bytes m size h k =
    let long = length-map-sent bytes in
    let (f, acked, exchanged) = write-Exchanged a bytes m size h k in
    let m' = (write_memory (pos a) (map sent bytes) m).0 in
    let back = (read_memory-write_memory a (map sent bytes) m size h (omega arith)).1 in
    let got : read_memory (pos a) (pos (length bytes)) m' ≡ some (map low_byte bytes) =
      subst (λ n. read_memory (pos a) (pos n) m' ≡ some (map low_byte bytes)) long
        (back ∙ ap some (map-low_byte-sent bytes)) in
    let (g, same, exchanged') =
      read-Exchanged a (length bytes) (map low_byte bytes) m' (omega arith) (omega arith) got in
    (m', f, g, exchanged, acked, exchanged', same ∙ map-sent-pos bytes)
