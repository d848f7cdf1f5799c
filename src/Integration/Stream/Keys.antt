-- ===== src/Integration/Stream/Keys.antt =====
-- Decimal numbers as Python reads them, `int(s)`: spaces around the number, a sign, and single
-- underscores are allowed. A printed number reads back as itself.
use r60v_home_assistant.Base.{
  ℕ, zero, suc, ◌+◌, ◌-◌, ◌*◌, ◌/◌, ◌%◌, ◌≤◌, ◌<◌, ◌≡◌, refl, ap, sym, ◌∙◌, inl, inr, Bool, true,
  false, ◌&&◌, Option, none, some, [], ◌∷◌, ◌++◌, leb, ltb, ◌==◌, if◌then◌else◌, All, Bool-cases,
  append_assoc, append-nil, arith,
}
use r60v_home_assistant.Base.Int.{ℤ, pos, negsuc}
use r60v_home_assistant.Protocol.Text.{Text}
use r60v_home_assistant.Protocol.Hex.{is_space, strip_spaces}
use r60v_home_assistant.Integration.Profile.{digits, decimal}
use r60v_home_assistant.Integration.Profile.Numbers.{decimal-All}

dec_value : ℕ → Option ℕ
dec_value c = if leb b'0' c && leb c b'9' then some (c - b'0') else none

-- The digits at the front and the text after them; `open_end` says that a digit has to follow.
dec_run : Bool → ℕ → Text → Option (ℕ × Text)
unfolding dec_value
dec_run open_end n [] = if open_end then none else some (n, [])
dec_run open_end n (c ∷ s) = elim (dec_value c) [
  | some d ↦ dec_run false (10 * n + d) s
  | none ↦ elim (c == b'_') [
    | true ↦ elim open_end [ true ↦ none | false ↦ dec_run true n s ]
    | false ↦ if open_end then none else some (n, c ∷ s)
  ]
]

ended : ℕ → Text → Option ℕ
ended n [] = some n
ended n (c ∷ s) = none

only_digits : Option (ℕ × Text) → Option ℕ
unfolding ended
only_digits none = none
only_digits (some (n, rest)) = ended n (strip_spaces rest)

dec_unsigned : Text → Option ℕ
unfolding dec_run only_digits
dec_unsigned s = only_digits (dec_run true 0 s)

minus : ℕ → ℤ
minus zero = pos zero
minus (suc n) = negsuc n

dec_signed : Text → Option ℤ
unfolding dec_unsigned minus
dec_signed [] = none
dec_signed (c ∷ s) =
    if c == b'-'
    then elim (dec_unsigned s) [ none ↦ none | some n ↦ some (minus n) ]
    else if c == b'+'
    then elim (dec_unsigned s) [ none ↦ none | some n ↦ some (pos n) ]
    else elim (dec_unsigned (c ∷ s)) [ none ↦ none | some n ↦ some (pos n) ]

-- `int(s)`; `none` is its `ValueError`.
unfoldable pub int_dec : Text → Option ℤ
unfolding dec_signed
int_dec s = dec_signed (strip_spaces s)

abbrev IsDigit : ℕ → Type 0
IsDigit c = (48 ≤ c) × (c ≤ 57)

dec_value-digit : (d : ℕ) → d < 10 → dec_value (48 + d) ≡ some d
unfolding dec_value
dec_value-digit d h = ground arith

dec_run-digit :
    (open_end : Bool) (n d : ℕ) (s : Text)
    → d < 10
    → dec_run open_end n ((48 + d) ∷ s) ≡ dec_run false (10 * n + d) s
unfolding dec_run
dec_run-digit open_end n d s h = rw (dec_value-digit d h, dec_run) refl

dec_run-digits :
    (fuel n : ℕ) (open_end : Bool) (s : Text)
    → n < fuel
    → dec_run open_end 0 (digits fuel n ++ s) ≡ dec_run false n s
unfolding digits
dec_run-digits zero n open_end s h = absurd (omega arith)
dec_run-digits (suc fuel) n open_end s h = elim (Bool-cases (ltb n 10)) [
  | inl one ↦
      rw one
        (dec_run-digit open_end 0 n s (ground arith) ∙ ap (λ m. dec_run false m s) (omega arith))
  | inr more ↦ rw more (
      ap (λ t. dec_run open_end 0 t) (append_assoc (digits fuel (n / 10)) _ s)
      ∙ (dec_run-digits fuel (n / 10) open_end _ (ground arith)
          ∙ (dec_run-digit false (n / 10) (n % 10) s (omega arith)
              ∙ ap (λ m. dec_run false m s) (omega arith))))
]

dec_unsigned-decimal : (n : ℕ) → dec_unsigned (decimal n) ≡ some n
unfolding dec_unsigned decimal only_digits
dec_unsigned-decimal n =
    let run : dec_run true 0 (digits (suc n) n) ≡ some (n, []) =
      ap (λ t. dec_run true 0 t) (sym (append-nil (digits (suc n) n)))
      ∙ (dec_run-digits (suc n) n true [] (omega arith) ∙ unfold dec_run in refl) in
    ap only_digits run ∙ (unfold ended strip_spaces in refl)

not_space : (s : Text) → All IsDigit s → strip_spaces s ≡ s
unfolding strip_spaces is_space
not_space [] h = refl
not_space (c ∷ s) h = ground (arith, h.0)

dec_signed-digits :
    (s : Text) (n : ℕ) → All IsDigit s → dec_unsigned s ≡ some n → dec_signed s ≡ some (pos n)
unfolding dec_signed
dec_signed-digits [] n h e =
    let k : dec_unsigned [] ≡ none = (unfold dec_unsigned dec_run in refl) in cc
dec_signed-digits (c ∷ s) n h e =
    let no_minus : (c == b'-') ≡ false = ground (arith, h.0) in
    let no_plus : (c == b'+') ≡ false = ground (arith, h.0) in rw (no_minus, no_plus, e) refl

pub int_dec-decimal : (n : ℕ) → int_dec (decimal n) ≡ some (pos n)
unfolding int_dec
int_dec-decimal n =
    let all = decimal-All IsDigit n (λ d h. (omega arith, omega arith)) in
    rw (not_space (decimal n) all) (dec_signed-digits (decimal n) n all (dec_unsigned-decimal n))

-- Two digits read as their number, a zero in front included.
pub int_dec-two :
    (a b : ℕ) → a < 10 → b < 10 → int_dec ((48 + a) ∷ (48 + b) ∷ []) ≡ some (pos (10 * a + b))
unfolding int_dec
int_dec-two a b ha hb =
    let s : Text = (48 + a) ∷ (48 + b) ∷ [] in
    let all : All IsDigit s = ((omega arith, omega arith), ((omega arith, omega arith), tt)) in
    let run : dec_run true 0 s ≡ some (10 * a + b, []) =
      dec_run-digit true 0 a ((48 + b) ∷ []) ha
      ∙ (ap (λ n. dec_run false n ((48 + b) ∷ [])) (omega arith)
          ∙ (dec_run-digit false a b [] hb ∙ (unfold dec_run in refl))) in
    rw (not_space s all) (
      dec_signed-digits s (10 * a + b) all (
        unfold dec_unsigned only_digits in
        ap only_digits run ∙ (unfold ended strip_spaces in refl)))
