-- ===== src/Protocol/Corruption.antt =====
-- What the checksum of `parse_frame` catches, and what `decode_data` lets through.
use r60v_home_assistant.Base.{
  ℕ, suc, ◌+◌, ◌<◌, ◌≡◌, ◌≢◌, ◌∙◌, sym, ap, inl, inr, true, [], ◌∷◌, ◌++◌, arith, append-nil,
  length,
}
use r60v_home_assistant.Base.Int.{ℤ, pos, negsuc}
use r60v_home_assistant.Base.Results.{ok, err, Result-cases}
use r60v_home_assistant.Protocol.Text.{Text, text_eq, encode, utf8, upper}
use r60v_home_assistant.Protocol.Hex.{hex_char, format_hex}
use r60v_home_assistant.Protocol.Hex.Reading.{int_hex-format_hex, int_hex-minus_digit}
use r60v_home_assistant.Protocol.Frame.Pieces.{text_eq_sound, body_of-append, supplied_of-append}
use r60v_home_assistant.Protocol.Frame.{
  ProtocolError, sum, total, checksum, decode_pairs, decode_data, Frame, body_of, supplied_of,
  parse_frame,
}

-- A frame is accepted only with its checksum right.
parse_frame-checks :
    (raw : Text) (f : Frame)
    → parse_frame true raw ≡ ok f
    → text_eq (checksum (body_of raw)) (upper (supplied_of raw)) ≡ true
unfolding parse_frame
parse_frame-checks raw f h = ground arith

format_hex-injective : (w : ℕ) (a b : ℤ) → format_hex w a ≡ format_hex w b → a ≡ b
format_hex-injective w a b h = cc (int_hex-format_hex w a, int_hex-format_hex w b)

checksum-injective : (s t : Text) → checksum s ≡ checksum t → total s ≡ total t
unfolding checksum
checksum-injective s t h = cc (format_hex-injective 2 (pos (total s)) (pos (total t)) h)

sum-append : (xs ys : Text) → sum (xs ++ ys) ≡ sum xs + sum ys
unfolding sum
sum-append [] ys = omega arith
sum-append (x ∷ xs) ys = omega (arith, sum-append xs ys)

sum-encode-append : (s t : Text) → sum (encode (s ++ t)) ≡ sum (encode s) + sum (encode t)
unfolding encode
sum-encode-append [] t = unfold sum in omega arith
sum-encode-append (c ∷ s) t = omega (
  arith,
  sum-append (utf8 c) (encode (s ++ t)),
  sum-append (utf8 c) (encode s),
  sum-encode-append s t,
)

sum-utf8_ascii : (c : ℕ) → c < 128 → sum (utf8 c) ≡ c
unfolding utf8 sum
sum-utf8_ascii c h = ground arith

sum-encode_one : (c : ℕ) → c < 128 → sum (encode (c ∷ [])) ≡ c
unfolding encode
sum-encode_one c h = ap sum (append-nil (utf8 c)) ∙ sum-utf8_ascii c h

sum-encode-replaced :
    (before after : Text) (c : ℕ)
    → c < 128
    → sum (encode (before ++ c ∷ after)) ≡ sum (encode before) + c + sum (encode after)
sum-encode-replaced before after c h = omega (
  arith,
  sum-encode-append before (c ∷ after),
  sum-encode-append (c ∷ []) after,
  sum-encode_one c h,
)

total_agrees :
    (before after : Text) (c c' : ℕ)
    → c < 128
    → c' < 128
    → total (before ++ c ∷ after) ≡ total (before ++ c' ∷ after)
    → c ≡ c'
unfolding total
total_agrees before after c c' h h' e =
    omega (arith, e, sum-encode-replaced before after c h, sum-encode-replaced before after c' h')

checks-upper :
    (body check : Text) (f : Frame)
    → length check ≡ 2
    → parse_frame true (body ++ check) ≡ ok f
    → checksum body ≡ upper check
checks-upper body check f two h = text_eq_sound (checksum body) (upper check) (
    rw (body_of-append body check two, supplied_of-append body check two) at
      (parse_frame-checks (body ++ check) f h))

-- A frame with one ASCII character of its body changed to another is rejected.
pub parse_frame-corrupted :
    (before after check : Text) (c c' : ℕ) (f : Frame)
    → length check ≡ 2
    → c < 128
    → c' < 128
    → c ≢ c'
    → parse_frame true ((before ++ c ∷ after) ++ check) ≡ ok f
    → (e : ProtocolError) × (parse_frame true ((before ++ c' ∷ after) ++ check) ≡ err e)
parse_frame-corrupted before after check c c' f two h h' ne accepted =
    elim (Result-cases (parse_frame true ((before ++ c' ∷ after) ++ check))) [
      | inl (g, accepted') ↦ absurd (
          ne (
            total_agrees before after c c' h h' (
              checksum-injective (before ++ c ∷ after) (before ++ c' ∷ after) (
                checks-upper (before ++ c ∷ after) check f two accepted
                ∙ sym (checks-upper (before ++ c' ∷ after) check g two accepted')))))
      | inr (e, rejected) ↦ (e, rejected)
    ]

-- A garbled pair of characters that spells a sign and a digit is taken for a negative byte.
decode_data-minus :
    (d : ℕ) → suc d < 16 → decode_data (b'-' ∷ hex_char (suc d) ∷ []) ≡ ok (negsuc d ∷ [])
unfolding decode_data decode_pairs
decode_data-minus d h = rw (int_hex-minus_digit d h, decode_pairs)
