-- ===== src/Client/Reply.antt =====
-- The client waits for exactly as many characters as the machine's reply has.
use r60v_home_assistant.Base.{
  ℕ, ◌+◌, ◌*◌, ◌<◌, ◌≡◌, refl, sym, ap, ◌∙◌, true, some, List, [], ◌++◌, append_assoc, arith, take,
  length, length-append,
}
use r60v_home_assistant.Base.Int.{ℤ, pos, ◌+ℤ◌, eq_of_parts, int_laws}
use r60v_home_assistant.Base.Results.{ok}
use r60v_home_assistant.Protocol.Text.{Text, text_eq}
use r60v_home_assistant.Protocol.Hex.Reading.{int_hex-format_hex}
use r60v_home_assistant.Protocol.Hex.{format_hex}
use r60v_home_assistant.Protocol.Hex.Width.{length-format_hex}
use r60v_home_assistant.Protocol.Frame.{
  is_command, slice, read, write, ack, build_frame, build_read, build_write, build_ack,
  with_checksum, checksum, encode_data,
}
use r60v_home_assistant.Protocol.RoundTrip.{length-encode_data, length-checksum, envelope-cuts}
use r60v_home_assistant.Client.{expected_response_len, response_len}

-- A frame, from its command, its two fields and what it carries.
framed : Text → ℕ → ℕ → Text → Text
framed command a n payload =
    with_checksum ((command ++ (format_hex 4 (pos a) ++ format_hex 4 (pos n))) ++ payload)

length-framed :
    (command payload : Text) (a n : ℕ)
    → length command ≡ 1
    → a < 65536
    → n < 65536
    → length (framed command a n payload) ≡ 9 + length payload + 2
unfolding framed with_checksum
length-framed command payload a n c h k =
    let A = format_hex 4 (pos a) in
    let L = format_hex 4 (pos n) in
    let body = (command ++ (A ++ L)) ++ payload in
    omega (
      arith,
      c,
      length-append body (checksum body),
      length-append (command ++ (A ++ L)) payload,
      length-append command (A ++ L),
      length-append A L,
      length-format_hex 3 a h,
      length-format_hex 3 n k,
      length-checksum body,
    )

expected-framed :
    (command payload : Text) (a n : ℕ)
    → is_command command ≡ true
    → a < 65536
    → n < 65536
    → expected_response_len (framed command a n payload)
      ≡ response_len (text_eq command read) (some (pos n))
unfolding framed with_checksum expected_response_len
expected-framed command payload a n c h k =
    let A = format_hex 4 (pos a) in
    let L = format_hex 4 (pos n) in
    let envelope = command ++ (A ++ L) in
    let check = checksum (envelope ++ payload) in
    let (c1, cA, cL, nine) =
      envelope-cuts command A L (payload ++ check) c (length-format_hex 3 a h)
        (length-format_hex 3 n k) in
    let cut = append_assoc envelope payload check in
    let first : take 1 ((envelope ++ payload) ++ check) ≡ command = ap (take 1) cut ∙ c1 in
    let third : slice 5 9 ((envelope ++ payload) ++ check) ≡ L = ap (slice 5 9) cut ∙ cL in
    rw (first, third, int_hex-format_hex 4 (pos n))

twice : (n m : ℕ) → m ≡ 9 + 2 * n + 2 → pos 9 +ℤ (pos n +ℤ pos n) +ℤ pos 2 ≡ pos m
twice n m e = eq_of_parts (pos 9 +ℤ (pos n +ℤ pos n) +ℤ pos 2) (pos m) (omega int_laws)

-- For a read of any number of bytes, the client waits for exactly as many characters as the reply
-- with that many bytes has.
expected-read :
    (a : ℕ) (bytes : List ℤ)
    → a < 65536
    → length bytes < 65536
    → (request : Text) × (reply : Text) × (build_read (pos a) (pos (length bytes)) ≡ ok request)
      × (build_frame read (pos a) (pos (length bytes)) bytes ≡ ok reply)
      × (expected_response_len request ≡ some (pos (length reply)))
unfolding build_read build_frame framed response_len
expected-read a bytes h k =
    let n = length bytes in
    (
      framed read a n (encode_data []),
      framed read a n (encode_data bytes),
      refl,
      refl,
      expected-framed read (encode_data []) a n refl h k
          ∙ ap some (
              twice n (length (framed read a n (encode_data bytes))) (
                length-framed read (encode_data bytes) a n refl h k
                ∙ ap (λ m. 9 + m + 2) (length-encode_data bytes))),
    )

-- For a write, the client waits for exactly as many characters as its acknowledgement has.
expected-write :
    (a : ℕ) (bytes : List ℤ)
    → a < 65536
    → length bytes < 65536
    → (request : Text) × (reply : Text) × (build_write (pos a) bytes ≡ ok request)
      × (build_ack write (pos a) (pos (length bytes)) ≡ ok reply)
      × (expected_response_len request ≡ some (pos (length reply)))
unfolding build_write build_frame build_ack framed response_len
expected-write a bytes h k =
    let n = length bytes in
    (
      framed write a n (encode_data bytes),
      framed write a n ack,
      refl,
      refl,
      expected-framed write (encode_data bytes) a n refl h k
          ∙ ap (λ m. some (pos m)) (sym (length-framed write ack a n refl h k)),
    )
