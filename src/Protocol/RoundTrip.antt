-- ===== src/Protocol/RoundTrip.antt =====
-- Frames that `build_frame` and `build_ack` print are the frames that `parse_frame` reads.
use r60v_home_assistant.Base.{
  ℕ, ◌*◌, ◌<◌, ◌≡◌, refl, sym, inl, inr, true, false, some, List, [], ◌∷◌, ◌++◌, map, append_assoc,
  arith, ltb, length, length-append, take, drop-append, All, All-append,
}
use r60v_home_assistant.Base.Int.{ℤ, pos, low_byte, low_byte-lt}
use r60v_home_assistant.Base.Results.{ok}
use r60v_home_assistant.Protocol.Text.{Text, text_eq, upper}
use r60v_home_assistant.Protocol.Hex.{format_hex, int_hex}
use r60v_home_assistant.Protocol.Hex.Reading.{IsDigit, int_hex-format_hex, format_hex-IsDigit}
use r60v_home_assistant.Protocol.Hex.Width.{length-format_hex}
use r60v_home_assistant.Protocol.Frame.Pieces.{
  text_eq_refl, command-cases, upper-digits, digits-ne-ack, four_chars, body_of-append,
  supplied_of-append, payload_of-append,
}
use r60v_home_assistant.Protocol.Frame.{
  ack, total, checksum, encode_data, decode_pairs, decode_data, is_command, with_checksum,
  build_frame, build_ack, Frame, is_ack, slice, body_of, supplied_of, payload_of, data_of,
  parse_frame,
}

-- What a byte of a message is sent as.
abbrev pub sent : ℤ → ℤ
sent b = pos (low_byte b)

pub length-encode_data : (bytes : List ℤ) → length (encode_data bytes) ≡ 2 * length bytes
unfolding encode_data
length-encode_data [] = omega arith
length-encode_data (b ∷ bs) = omega (
  arith,
  length-append (format_hex 2 (pos (low_byte b))) (encode_data bs),
  length-format_hex 1 (low_byte b) (low_byte-lt b),
  length-encode_data bs,
)

encode_data-IsDigit : (bytes : List ℤ) → All IsDigit (encode_data bytes)
unfolding encode_data
encode_data-IsDigit [] = tt
encode_data-IsDigit (b ∷ bs) =
    All-append IsDigit (format_hex 2 (pos (low_byte b))) (encode_data bs)
      (format_hex-IsDigit 2 (low_byte b)) (encode_data-IsDigit bs)

decode_pairs-two :
    (head rest : Text) (v : ℤ) (vs : List ℤ)
    → length head ≡ 2
    → int_hex head ≡ some v
    → decode_pairs rest ≡ some vs
    → decode_pairs (head ++ rest) ≡ some (v ∷ vs)
unfolding decode_pairs
decode_pairs-two [] rest v vs two h k = absurd (omega arith)
decode_pairs-two (a ∷ []) rest v vs two h k = absurd (omega arith)
decode_pairs-two (a ∷ b ∷ []) rest v vs two h k = rw (h, decode_pairs) (rw (k))
decode_pairs-two (a ∷ b ∷ c ∷ s) rest v vs two h k = absurd (omega arith)

decode_pairs-encode_data :
    (bytes : List ℤ) → decode_pairs (encode_data bytes) ≡ some (map sent bytes)
unfolding encode_data
decode_pairs-encode_data [] = unfold decode_pairs in refl
decode_pairs-encode_data (b ∷ bs) =
    decode_pairs-two (format_hex 2 (pos (low_byte b))) (encode_data bs) (sent b) (map sent bs)
      (length-format_hex 1 (low_byte b) (low_byte-lt b)) (int_hex-format_hex 2 (sent b))
      (decode_pairs-encode_data bs)

data_of-encode_data : (bytes : List ℤ) → data_of (encode_data bytes) ≡ ok (map sent bytes)
unfolding data_of decode_data
data_of-encode_data bytes =
    rw (digits-ne-ack (encode_data bytes) (encode_data-IsDigit bytes))
      (ground (arith, length-encode_data bytes, decode_pairs-encode_data bytes))

-- The cuts of a frame made of its five texts, given the sizes of the texts.
pub envelope-cuts :
    (command A L rest : Text)
    → is_command command ≡ true
    → length A ≡ 4
    → length L ≡ 4
    → let raw = (command ++ (A ++ L)) ++ rest in
      (take 1 raw ≡ command)
      × (slice 1 5 raw ≡ A)
      × (slice 5 9 raw ≡ L)
      × (length (command ++ (A ++ L)) ≡ 9)
envelope-cuts command A L rest h four four' =
    let (_, _, _, _, e) = four_chars A four in
    let (_, _, _, _, e') = four_chars L four' in
    elim (command-cases command h) [
      | inl k ↦ rw (k, e, e') (refl, refl, refl, refl)
      | inr k ↦ rw (k, e, e') (refl, refl, refl, refl)
    ]

parse_frame-of_cuts :
    (raw command A L payload body check : Text) (a n : ℤ) (bytes : List ℤ)
    → ltb (length raw) 11 ≡ false
    → take 1 raw ≡ command
    → slice 1 5 raw ≡ A
    → slice 5 9 raw ≡ L
    → payload_of raw ≡ payload
    → body_of raw ≡ body
    → supplied_of raw ≡ check
    → is_command command ≡ true
    → int_hex A ≡ some a
    → int_hex L ≡ some n
    → data_of payload ≡ ok bytes
    → text_eq (checksum body) (upper check) ≡ true
    → parse_frame true raw
      ≡ ok (record {
        command = command;
        address = a;
        count = n;
        bytes = bytes;
        supplied = check;
        raw = raw;
      })
unfolding parse_frame
parse_frame-of_cuts raw command A L payload body check a n bytes h0 h1 h2 h3 h4 h5 h6 hc ha hn hb
      hs =
    rw (h0, h1, h2, h3, h4, h5, h6, hc, ha, hn, hb, hs)

parse_frame-pieces :
    (command A L payload check : Text) (a n : ℤ) (bytes : List ℤ)
    → is_command command ≡ true
    → length A ≡ 4
    → length L ≡ 4
    → length check ≡ 2
    → int_hex A ≡ some a
    → int_hex L ≡ some n
    → data_of payload ≡ ok bytes
    → text_eq (checksum ((command ++ (A ++ L)) ++ payload)) (upper check) ≡ true
    → let raw = ((command ++ (A ++ L)) ++ payload) ++ check in
      parse_frame true raw
      ≡ ok (record {
        command = command;
        address = a;
        count = n;
        bytes = bytes;
        supplied = check;
        raw = raw;
      })
parse_frame-pieces command A L payload check a n bytes hc hA hL hk ha hn hb hs =
    let envelope = command ++ (A ++ L) in
    let body = envelope ++ payload in
    let (c1, cA, cL, nine) =
      rw (← append_assoc envelope payload check) at
        (envelope-cuts command A L (payload ++ check) hc hA hL) in
    parse_frame-of_cuts (body ++ check) command A L payload body check a n bytes
      (ground (arith, length-append body check, length-append envelope payload, nine)) c1 cA cL
      (payload_of-append body check hk envelope payload nine refl) (body_of-append body check hk)
      (supplied_of-append body check hk) hc ha hn hb hs

pub length-checksum : (body : Text) → length (checksum body) ≡ 2
unfolding checksum total
length-checksum body = length-format_hex 1 (total body) (omega arith)

check-matches : (body : Text) → text_eq (checksum body) (upper (checksum body)) ≡ true
unfolding checksum
check-matches body =
    rw (upper-digits _ (format_hex-IsDigit 2 (total body)))
      (text_eq_refl (format_hex 2 (pos (total body))))

-- Every frame that `build_frame` prints for a valid command and 16-bit fields parses, with its
-- checksum verified, to that command, address and length, and to the low bytes of the data.
pub parse_frame-build_frame :
    (command : Text) (address count : ℕ) (bytes : List ℤ)
    → is_command command ≡ true
    → address < 65536
    → count < 65536
    → (raw : Text) × (build_frame command (pos address) (pos count) bytes ≡ ok raw)
      × (parse_frame true raw
          ≡ ok (record {
            command = command;
            address = pos address;
            count = pos count;
            bytes = map sent bytes;
            supplied = supplied_of raw;
            raw = raw;
          }))
unfolding build_frame with_checksum
parse_frame-build_frame command address count bytes hc ha hn =
    let A = format_hex 4 (pos address) in
    let L = format_hex 4 (pos count) in
    let body = (command ++ (A ++ L)) ++ encode_data bytes in
    (
      body ++ checksum body,
      rw hc,
      rw (supplied_of-append body (checksum body) (length-checksum body)) (
          parse_frame-pieces command A L (encode_data bytes) (checksum body) (pos address)
            (pos count) (map sent bytes) hc (length-format_hex 3 address ha)
            (length-format_hex 3 count hn) (length-checksum body)
            (int_hex-format_hex 4 (pos address)) (int_hex-format_hex 4 (pos count))
            (data_of-encode_data bytes) (check-matches body)),
    )

-- A write acknowledgement parses to the command, address and length it answers, with no data, and
-- `is_ack` recognises it.
pub parse_frame-build_ack :
    (command : Text) (address count : ℕ)
    → is_command command ≡ true
    → address < 65536
    → count < 65536
    → (raw : Text) × (f : Frame) × (build_ack command (pos address) (pos count) ≡ ok raw)
      × (parse_frame true raw ≡ ok f)
      × (f.command ≡ command)
      × (f.address ≡ pos address)
      × (f.count ≡ pos count)
      × (f.bytes ≡ [])
      × (is_ack f ≡ true)
unfolding build_ack with_checksum is_ack
parse_frame-build_ack command address count hc ha hn =
    let A = format_hex 4 (pos address) in
    let L = format_hex 4 (pos count) in
    let envelope = command ++ (A ++ L) in
    let body = envelope ++ ack in
    let nine : 9 ≡ length envelope = sym (
      (envelope-cuts command A L [] hc (length-format_hex 3 address ha)
        (length-format_hex 3 count hn)).3) in
    (
      body ++ checksum body,
      _,
      rw hc,
      parse_frame-pieces command A L ack (checksum body) (pos address) (pos count) [] hc
          (length-format_hex 3 address ha) (length-format_hex 3 count hn) (length-checksum body)
          (int_hex-format_hex 4 (pos address)) (int_hex-format_hex 4 (pos count))
          (unfold data_of in refl) (check-matches body),
      refl,
      refl,
      refl,
      refl,
      rw (
        append_assoc envelope ack (checksum body),
        drop-append envelope (ack ++ checksum body) 9 nine,
      ),
    )
