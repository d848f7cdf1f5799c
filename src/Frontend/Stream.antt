-- ===== src/Frontend/Stream.antt =====
-- Requests delimit themselves: a stream of them is cut where they were joined.
use r60v_home_assistant.Base.{
  ℕ, zero, suc, ◌+◌, ◌*◌, ◌≤◌, ◌<◌, ◌≡◌, refl, sym, ap, subst, ◌∙◌, true, false, Option, none, some,
  List, [], ◌∷◌, ◌++◌, append_assoc, append-nil, arith, ltb, length, length-append, take, drop,
  take-append, drop-append, map, All,
}
use r60v_home_assistant.Base.Int.{ℤ, pos, ◌+ℤ◌, eq_of_parts, int_laws}
use r60v_home_assistant.Base.Results.{Result, ok}
use r60v_home_assistant.Protocol.Text.{Text}
use r60v_home_assistant.Protocol.Hex.{format_hex, int_hex}
use r60v_home_assistant.Protocol.Hex.Reading.{int_hex-format_hex}
use r60v_home_assistant.Protocol.Hex.Width.{length-format_hex}
use r60v_home_assistant.Protocol.Frame.{
  is_command, read, write, ProtocolError, build_frame, build_read, build_write, with_checksum,
  checksum, encode_data, slice,
}
use r60v_home_assistant.Protocol.RoundTrip.{envelope-cuts, length-encode_data, length-checksum}
use mathlib.Core.Option
use r60v_home_assistant.Frontend.{
  Taken, got, incomplete, invalid, count_for, rest_count, take_rest, cut_at, read_request,
}

take_rest-whole :
    (envelope tail stream : Text) (n : ℕ)
    → length tail ≡ n
    → take_rest envelope (pos n) (tail ++ stream) ≡ got (envelope ++ tail) stream
unfolding take_rest
take_rest-whole envelope tail stream n size =
    let long = length-append tail stream in
    let enough : ltb (length (tail ++ stream)) n ≡ false = ground (arith, long, size) in
    rw (enough, take-append tail stream n (sym size), drop-append tail stream n (sym size))

read_request-long :
    (stream : Text)
    → 9 ≤ length stream
    → read_request stream ≡ cut_at (take 9 stream) (drop 9 stream)
unfolding read_request
read_request-long stream h =
    let enough : ltb (length stream) 9 ≡ false = ground arith in rw enough refl

cut_at-count :
    (envelope stream : Text) (n : ℕ)
    → rest_count envelope ≡ pos n
    → cut_at envelope stream ≡ take_rest envelope (pos n) stream
unfolding cut_at
cut_at-count envelope stream n count = ap (λ k. take_rest envelope k stream) count

-- The cut of a stream that starts with an envelope and what belongs to it.
read_request-cut :
    (envelope tail stream : Text) (n : ℕ)
    → length envelope ≡ 9
    → length tail ≡ n
    → rest_count envelope ≡ pos n
    → read_request (envelope ++ (tail ++ stream)) ≡ got (envelope ++ tail) stream
read_request-cut envelope tail stream n nine size count =
    let after = tail ++ stream in
    let long = length-append envelope after in
    read_request-long (envelope ++ after) (omega arith)
    ∙ ap (λ e. cut_at e (drop 9 (envelope ++ after))) (take-append envelope after 9 (sym nine))
    ∙ ap (cut_at envelope) (drop-append envelope after 9 (sym nine))
    ∙ cut_at-count envelope after n count
    ∙ take_rest-whole envelope tail stream n size

-- A frame with its envelope and payload, in a stream.
framed-cut :
    (envelope payload stream : Text) (n : ℕ)
    → length envelope ≡ 9
    → length payload + 2 ≡ n
    → rest_count envelope ≡ pos n
    → let text = with_checksum (envelope ++ payload) in
      read_request (text ++ stream) ≡ got text stream
unfolding with_checksum
framed-cut envelope payload stream n nine size count =
    let check = checksum (envelope ++ payload) in
    let joined = append_assoc envelope payload check in
    let long = length-append payload check in
    let two = length-checksum (envelope ++ payload) in
    ap (λ t. read_request (t ++ stream)) joined
    ∙ ap read_request (append_assoc envelope (payload ++ check) stream)
    ∙ read_request-cut envelope (payload ++ check) stream n nine (omega arith) count
    ∙ ap (λ t. got t stream) (sym joined)

envelope_of : Text → ℕ → ℕ → Text
envelope_of command a n = command ++ (format_hex 4 (pos a) ++ format_hex 4 (pos n))

-- The command and the last field of an envelope, and its length.
envelope_of-parts :
    (command : Text) (a n : ℕ)
    → is_command command ≡ true
    → a < 65536
    → n < 65536
    → (take 1 (envelope_of command a n) ≡ command)
      × (int_hex (slice 5 9 (envelope_of command a n)) ≡ some (pos n))
      × (length (envelope_of command a n) ≡ 9)
unfolding envelope_of
envelope_of-parts command a n c h k =
    let A = format_hex 4 (pos a) in
    let L = format_hex 4 (pos n) in
    let (c1, cA, cL, nine) =
      envelope-cuts command A L [] c (length-format_hex 3 a h) (length-format_hex 3 n k) in
    let whole = append-nil (command ++ (A ++ L)) in
    (
      ap (take 1) (sym whole) ∙ c1,
      ap (λ t. int_hex (slice 5 9 t)) (sym whole) ∙ ap int_hex cL ∙ int_hex-format_hex 4 (pos n),
      nine,
    )

double : (n : ℕ) → (pos n +ℤ pos n) +ℤ pos 2 ≡ pos (2 * n + 2)
double n = eq_of_parts ((pos n +ℤ pos n) +ℤ pos 2) (pos (2 * n + 2)) (omega int_laws)

rest_count-write :
    (a n : ℕ) → a < 65536 → n < 65536 → rest_count (envelope_of write a n) ≡ pos (2 * n + 2)
unfolding rest_count count_for
rest_count-write a n h k =
    let (first, last, nine) = envelope_of-parts write a n refl h k in rw (first, last, double n)

rest_count-read : (a n : ℕ) → a < 65536 → n < 65536 → rest_count (envelope_of read a n) ≡ pos 2
unfolding rest_count count_for
rest_count-read a n h k =
    let (first, last, nine) = envelope_of-parts read a n refl h k in rw first refl

-- The requests of a client, and how `build_read` and `build_write` print them.
pub data Request : Type 0 where
  fetches : ℕ → ℕ → Request
  stores : ℕ → List ℤ → Request

abbrev pub print : Request → Result ProtocolError Text
print (fetches a n) = build_read (pos a) (pos n)
print (stores a bytes) = build_write (pos a) bytes

abbrev pub InRange : Request → Type 0
InRange (fetches a n) = (a < 65536) × (n < 65536)
InRange (stores a bytes) = (a < 65536) × (length bytes < 65536)

pub request-cut :
    (r : Request)
    → InRange r
    → (text : Text) × (print r ≡ ok text)
      × ((stream : Text) → read_request (text ++ stream) ≡ got text stream)
unfolding build_read build_write build_frame envelope_of
request-cut (fetches a n) (h, k) =
    let (first, last, nine) = envelope_of-parts read a n refl h k in
    (
      with_checksum (envelope_of read a n ++ encode_data []),
      refl,
      λ stream.
          framed-cut (envelope_of read a n) (encode_data []) stream 2 nine
            (omega (arith, length-encode_data [])) (rest_count-read a n h k),
    )
request-cut (stores a bytes) (h, k) =
    let n = length bytes in
    let (first, last, nine) = envelope_of-parts write a n refl h k in
    (
      with_checksum (envelope_of write a n ++ encode_data bytes),
      refl,
      λ stream.
          framed-cut (envelope_of write a n) (encode_data bytes) stream (2 * n + 2) nine
            (omega (arith, length-encode_data bytes)) (rest_count-write a n h k),
    )

-- What comes first in a stream that starts with a framed request is its envelope.
framed-envelope :
    (envelope payload stream : Text)
    → length envelope ≡ 9
    → take 9 (with_checksum (envelope ++ payload) ++ stream) ≡ envelope
unfolding with_checksum
framed-envelope envelope payload stream nine =
    let check = checksum (envelope ++ payload) in
    ap (λ t. take 9 (t ++ stream)) (append_assoc envelope payload check)
    ∙ ap (take 9) (append_assoc envelope (payload ++ check) stream)
    ∙ take-append envelope ((payload ++ check) ++ stream) 9 (sym nine)

framed-size :
    (envelope payload stream : Text)
    → length envelope ≡ 9
    → 9 ≤ length (with_checksum (envelope ++ payload) ++ stream)
unfolding with_checksum
framed-size envelope payload stream nine = omega (
  arith,
  length-append ((envelope ++ payload) ++ checksum (envelope ++ payload)) stream,
  length-append (envelope ++ payload) (checksum (envelope ++ payload)),
  length-append envelope payload,
)

-- The length field of a printed request reads as a number.
pub request-readable :
    (r : Request) (text stream : Text)
    → InRange r
    → print r ≡ ok text
    → (n : ℤ) × (int_hex (slice 5 9 (take 9 (text ++ stream))) ≡ some n)
      × (9 ≤ length (text ++ stream))
unfolding build_read build_write build_frame envelope_of
request-readable (fetches a n) text stream (h, k) printed =
    let (first, last, nine) = envelope_of-parts read a n refl h k in
    let same : with_checksum (envelope_of read a n ++ encode_data []) ≡ text = cc in
    (
      pos n,
      ap (λ t. int_hex (slice 5 9 (take 9 (t ++ stream)))) (sym same)
          ∙ ap (λ e. int_hex (slice 5 9 e))
              (framed-envelope (envelope_of read a n) (encode_data []) stream nine)
          ∙ last,
      subst (λ t. 9 ≤ length (t ++ stream)) same
          (framed-size (envelope_of read a n) (encode_data []) stream nine),
    )
request-readable (stores a bytes) text stream (h, k) printed =
    let n = length bytes in
    let (first, last, nine) = envelope_of-parts write a n refl h k in
    let same : with_checksum (envelope_of write a n ++ encode_data bytes) ≡ text = cc in
    (
      pos n,
      ap (λ t. int_hex (slice 5 9 (take 9 (t ++ stream)))) (sym same)
          ∙ ap (λ e. int_hex (slice 5 9 e))
              (framed-envelope (envelope_of write a n) (encode_data bytes) stream nine)
          ∙ last,
      subst (λ t. 9 ≤ length (t ++ stream)) same
          (framed-size (envelope_of write a n) (encode_data bytes) stream nine),
    )

-- A number of requests, read one after another.
next_request : (Text → Option (List Text × Text)) → Taken → Option (List Text × Text)
next_request more (got text stream) = Option.map (λ r. (text ∷ r.0, r.1)) (more stream)
next_request more incomplete = none
next_request more invalid = none

unfoldable pub read_requests : ℕ → Text → Option (List Text × Text)
unfolding next_request
read_requests zero stream = some ([], stream)
read_requests (suc n) stream = next_request (read_requests n) (read_request stream)

abbrev pub joined : List Text → Text → Text
joined [] stream = stream
joined (text ∷ texts) stream = text ++ joined texts stream

next_request-got :
    (more : Text → Option (List Text × Text)) (text stream : Text) (texts : List Text) (left : Text)
    → more stream ≡ some (texts, left)
    → next_request more (got text stream) ≡ some (text ∷ texts, left)
unfolding next_request
next_request-got more text stream texts left e = rw e refl

-- The requests of a client, printed and sent one after another, are cut out of the stream as they
-- were printed, and whatever follows them stays in it.
pub requests-cut :
    (rs : List Request) (stream : Text)
    → All InRange rs
    → (texts : List Text) × (map print rs ≡ map ok texts)
      × (read_requests (length rs) (joined texts stream) ≡ some (texts, stream))
unfolding read_requests
requests-cut [] stream h = ([], refl, refl)
requests-cut (r ∷ rs) stream (h, hs) =
    let (text, printed, cut) = request-cut r h in
    let (texts, all, more) = requests-cut rs stream hs in
    (
      text ∷ texts,
      rw printed (ap (λ l. ok text ∷ l) all),
      ap (next_request (read_requests (length rs))) (cut (joined texts stream))
          ∙ next_request-got (read_requests (length rs)) text (joined texts stream) texts stream
              more,
    )
