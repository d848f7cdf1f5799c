-- ===== src/Protocol/Hex/Reading.antt =====
-- What `format_hex` prints, `int_hex` reads back.
use r60v_home_assistant.Base.{
  ℕ, zero, suc, ◌+◌, ◌-◌, ◌*◌, ◌/◌, ◌%◌, ◌<◌, ◌≡◌, ◌≢◌, refl, ◌∙◌, ap, Bool, true, false, some, [],
  inl, inr, ◌∷◌, ◌++◌, arith, ltb, leb, ◌&&◌, Bool-cases, length, replicate, All, All-append,
}
use r60v_home_assistant.Base.Int.{ℤ, pos, negsuc}
use r60v_home_assistant.Protocol.Text.{Text}
use r60v_home_assistant.Protocol.Hex.{
  hex_char, digits_from, digits, zero_fill, format_hex, hex_value, is_space, digit_run, skip_prefix,
  unsigned, int_hex,
}

-- What the printed characters are, and are not.
pub record IsDigit (c : ℕ) : Type 0 where
  pub value : ℕ
  pub is_small : value < 16
  pub reads : hex_value c ≡ some value
  pub not_space : is_space c ≡ false
  pub not_minus : c ≢ b'-'
  pub not_plus : c ≢ b'+'
  pub not_x : c ≢ b'x'
  pub not_big_x : c ≢ b'X'
  pub not_big_o : c ≢ b'O'
  pub not_lower : (leb b'a' c && leb c b'z') ≡ false

pub hex_char-IsDigit : (d : ℕ) → d < 16 → IsDigit (hex_char d)
unfolding hex_char hex_value is_space
hex_char-IsDigit d h = record {
  value = d;
  is_small = h;
  reads = ground arith;
  not_space = ground arith;
  not_minus = ground arith;
  not_plus = ground arith;
  not_x = ground arith;
  not_big_x = ground arith;
  not_big_o = ground arith;
  not_lower = ground arith;
}

zero-IsDigit : IsDigit b'0'
unfolding hex_char
zero-IsDigit = hex_char-IsDigit 0 (omega arith)

hex_value-hex_char : (d : ℕ) → d < 16 → hex_value (hex_char d) ≡ some d
unfolding hex_char hex_value
hex_value-hex_char d h = ground arith

digit_run-hex_char :
    (open_end : Bool) (acc d : ℕ) (s : Text)
    → d < 16
    → digit_run open_end acc (hex_char d ∷ s) ≡ digit_run false (16 * acc + d) s
unfolding digit_run
digit_run-hex_char open_end acc d s h = rw (hex_value-hex_char d h, digit_run)

digit_run-digits :
    (open_end : Bool) (fuel n : ℕ) (out : Text)
    → n < fuel
    → digit_run open_end 0 (digits_from fuel n out) ≡ digit_run false n out
unfolding digits_from
digit_run-digits open_end zero n out h = elim h [ ]
digit_run-digits open_end (suc fuel) n out h = elim (Bool-cases (ltb n 16)) [
  | inl small ↦ rw small (
      digit_run-hex_char open_end 0 n out (ground arith)
      ∙ ap (λ m. digit_run false m out) (omega arith))
  | inr large ↦ rw large (
      digit_run-digits open_end fuel (n / 16) (hex_char (n % 16) ∷ out) (ground arith)
      ∙ digit_run-hex_char false (n / 16) (n % 16) out (omega arith)
      ∙ ap (λ m. digit_run false m out) (omega arith))
]

-- The zeros that `zero_fill` puts in front are read away.
digit_run-zeros :
    (k n : ℕ) (open_end : Bool) → digit_run open_end 0 (replicate k b'0' ++ digits n) ≡ some (n, [])
unfolding digits hex_char digit_run
digit_run-zeros zero n open_end = digit_run-digits open_end (suc n) n [] (omega arith)
digit_run-zeros (suc k) n open_end =
    digit_run-hex_char open_end 0 0 _ (omega arith) ∙ digit_run-zeros k n false

digits_from-IsDigit :
    (fuel n : ℕ) (out : Text) → All IsDigit out → All IsDigit (digits_from fuel n out)
unfolding digits_from
digits_from-IsDigit zero n out h = h
digits_from-IsDigit (suc fuel) n out h = elim (Bool-cases (ltb n 16)) [
  | inl small ↦ rw small (hex_char-IsDigit n (ground arith), h)
  | inr large ↦ rw large (
      digits_from-IsDigit fuel (n / 16) (hex_char (n % 16) ∷ out)
        (hex_char-IsDigit (n % 16) (omega arith), h))
]

zeros-IsDigit : (k : ℕ) → All IsDigit (replicate k b'0')
zeros-IsDigit zero = tt
zeros-IsDigit (suc k) = (zero-IsDigit, zeros-IsDigit k)

zero_fill-IsDigit : (width n : ℕ) → All IsDigit (zero_fill width (digits n))
unfolding zero_fill digits
zero_fill-IsDigit width n =
    All-append IsDigit (replicate (width - length (digits n)) b'0') (digits n)
      (zeros-IsDigit (width - length (digits n))) (digits_from-IsDigit (suc n) n [] tt)

skip_prefix-digits : (s : Text) → All IsDigit s → skip_prefix s ≡ s
unfolding skip_prefix
skip_prefix-digits [] h = refl
skip_prefix-digits (a ∷ []) h = refl
skip_prefix-digits (a ∷ b ∷ s) h = ground (arith, h.1.0.not_x, h.1.0.not_big_x)

unsigned_of_run :
    (s : Text) (n : ℕ) → skip_prefix s ≡ s → digit_run true 0 s ≡ some (n, []) → unsigned s ≡ some n
unfolding unsigned
unsigned_of_run s n e h = ground arith

unsigned-zero_fill : (width n : ℕ) → unsigned (zero_fill width (digits n)) ≡ some n
unfolding zero_fill
unsigned-zero_fill width n =
    unsigned_of_run _ n (skip_prefix-digits _ (zero_fill-IsDigit width n))
      (digit_run-zeros (width - length (digits n)) n true)

-- A text that starts with a digit has no space and no sign to skip.
int_hex-digit :
    (c : ℕ) (s : Text) (n : ℕ)
    → IsDigit c
    → unsigned (c ∷ s) ≡ some n
    → int_hex (c ∷ s) ≡ some (pos n)
unfolding int_hex
int_hex-digit c s n d h = ground (arith, d.not_space, d.not_minus, d.not_plus)

int_hex-digits : (s : Text) (n : ℕ) → All IsDigit s → unsigned s ≡ some n → int_hex s ≡ some (pos n)
unfolding unsigned
int_hex-digits [] n d h = cc
int_hex-digits (c ∷ s) n d h = int_hex-digit c s n d.0 h

int_hex-minus :
    (s : Text) (n : ℕ) → unsigned s ≡ some (suc n) → int_hex (b'-' ∷ s) ≡ some (negsuc n)
unfolding int_hex
int_hex-minus s n h = ground arith

-- Reading a printed number gives that number, whatever its size, its sign and the width.
pub int_hex-format_hex : (width : ℕ) (z : ℤ) → int_hex (format_hex width z) ≡ some z
unfolding format_hex
int_hex-format_hex width (pos n) =
    int_hex-digits _ n (zero_fill-IsDigit width n) (unsigned-zero_fill width n)
int_hex-format_hex width (negsuc n) = int_hex-minus _ n (unsigned-zero_fill (width - 1) (suc n))

pub format_hex-IsDigit : (width n : ℕ) → All IsDigit (format_hex width (pos n))
unfolding format_hex
format_hex-IsDigit width n = zero_fill-IsDigit width n

unsigned-digit : (d : ℕ) → d < 16 → unsigned (hex_char d ∷ []) ≡ some d
unfolding digit_run skip_prefix
unsigned-digit d h =
    unsigned_of_run (hex_char d ∷ []) d refl
      (digit_run-hex_char true 0 d [] h ∙ ap (λ m. some (m, [])) (omega arith))

-- A sign in front of a digit is read as a sign.
pub int_hex-minus_digit :
    (d : ℕ) → suc d < 16 → int_hex (b'-' ∷ hex_char (suc d) ∷ []) ≡ some (negsuc d)
int_hex-minus_digit d h = int_hex-minus (hex_char (suc d) ∷ []) d (unsigned-digit (suc d) h)
