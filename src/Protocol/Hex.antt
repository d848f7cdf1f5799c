-- ===== src/Protocol/Hex.antt =====
-- Hexadecimal numbers as Python prints them (`f"{n:04X}"`) and reads them (`int(s, 16)`). The reader
-- takes what Python takes: spaces around the number, a sign, `0x`, single underscores.
pub mod Reading
pub mod Width
use r60v_home_assistant.Base.{
  ℕ, zero, suc, ◌+◌, ◌-◌, ◌*◌, ◌/◌, ◌%◌, Bool, true, false, ◌&&◌, ◌||◌, Option, none, some, [], ◌∷◌,
  ◌++◌, ltb, leb, ◌==◌, if◌then◌else◌, length, replicate,
}
use r60v_home_assistant.Base.Int.{ℤ, pos, negsuc}
use r60v_home_assistant.Protocol.Text.{Text}

unfoldable pub hex_char : ℕ → ℕ
hex_char d = if ltb d 10 then b'0' + d else 55 + d

digits_from : ℕ → ℕ → Text → Text
digits_from zero n out = out
digits_from (suc fuel) n out =
    let more = digits_from fuel (n / 16) (hex_char (n % 16) ∷ out) in
    if ltb n 16 then hex_char n ∷ out else more

-- `f"{n:X}"`: each round drops a digit, so `n + 1` rounds are enough.
unfoldable pub digits : ℕ → Text
unfolding digits_from
digits n = digits_from (suc n) n []

zero_fill : ℕ → Text → Text
zero_fill width s = replicate (width - length s) b'0' ++ s

-- `f"{n:0{width}X}"`: a sign counts towards the width.
unfoldable pub format_hex : ℕ → ℤ → Text
unfolding digits zero_fill
format_hex width (pos n) = zero_fill width (digits n)
format_hex width (negsuc n) = b'-' ∷ zero_fill (width - 1) (digits (suc n))

unfoldable pub hex_value : ℕ → Option ℕ
hex_value c =
    if leb b'0' c && leb c b'9'
    then some (c - b'0')
    else if leb b'A' c && leb c b'F'
    then some (c - 55)
    else if leb b'a' c && leb c b'f'
    then some (c - 87)
    else none

unfoldable pub is_space : ℕ → Bool
is_space c = c == 32 || (leb 9 c && leb c 13)

unfoldable pub strip_spaces : Text → Text
unfolding is_space
strip_spaces [] = []
strip_spaces (c ∷ s) = let rest = strip_spaces s in if is_space c then rest else c ∷ s

-- The digits at the front and the text after them; `open_end` says that a digit has to follow, at
-- the start and behind an underscore.
unfoldable pub digit_run : Bool → ℕ → Text → Option (ℕ × Text)
digit_run open_end n [] = if open_end then none else some (n, [])
digit_run open_end n (c ∷ s) = elim (hex_value c) [
  | some d ↦ digit_run false (16 * n + d) s
  | none ↦ elim (c == b'_') [
    | true ↦ elim open_end [ true ↦ none | false ↦ digit_run true n s ]
    | false ↦ if open_end then none else some (n, c ∷ s)
  ]
]

skip_underscore : Text → Text
skip_underscore [] = []
skip_underscore (c ∷ s) = if c == b'_' then s else c ∷ s

unfoldable pub skip_prefix : Text → Text
unfolding skip_underscore
skip_prefix (a ∷ b ∷ s) =
    if a == b'0' && (b == b'x' || b == b'X') then skip_underscore s else a ∷ b ∷ s
skip_prefix s = s

only_spaces : ℕ → Text → Option ℕ
only_spaces n [] = some n
only_spaces n (c ∷ s) = none

unfoldable pub unsigned : Text → Option ℕ
unfolding digit_run skip_prefix strip_spaces only_spaces
unsigned s = elim (digit_run true 0 (skip_prefix s)) [
  | none ↦ none
  | some (n, rest) ↦ only_spaces n (strip_spaces rest)
]

negated : ℕ → ℤ
negated zero = pos zero
negated (suc n) = negsuc n

unfoldable pub signed : Text → Option ℤ
unfolding unsigned negated
signed [] = none
signed (c ∷ s) =
    if c == b'-'
    then elim (unsigned s) [ none ↦ none | some n ↦ some (negated n) ]
    else if c == b'+'
    then elim (unsigned s) [ none ↦ none | some n ↦ some (pos n) ]
    else elim (unsigned (c ∷ s)) [ none ↦ none | some n ↦ some (pos n) ]

-- `int(s, 16)`; `none` is its `ValueError`.
unfoldable pub int_hex : Text → Option ℤ
unfolding signed strip_spaces
int_hex s = signed (strip_spaces s)
