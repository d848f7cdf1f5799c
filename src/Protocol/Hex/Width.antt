-- ===== src/Protocol/Hex/Width.antt =====
-- How many characters a printed number takes.
use native.Mathlib.Nat.{pow-suc}
use r60v_home_assistant.Base.{
  ℕ, zero, suc, ◌+◌, ◌-◌, ◌/◌, ◌%◌, ◌^◌, ◌<◌, ◌≤◌, ◌≡◌, inl, inr, [], ◌∷◌, arith, ltb, Bool-cases,
  length, length-append, replicate,
}
use r60v_home_assistant.Base.Int.{pos}
use r60v_home_assistant.Protocol.Text.{Text}
use r60v_home_assistant.Protocol.Hex.{hex_char, digits_from, digits, zero_fill, format_hex}

length-replicate : (k a : ℕ) → length (replicate k a) ≡ k
length-replicate zero a = omega arith
length-replicate (suc k) a = omega (arith, length-replicate k a)

length-digits_from :
    (k fuel n : ℕ) (out : Text)
    → n < fuel
    → n < 16 ^ suc k
    → length (digits_from fuel n out) ≤ suc k + length out
unfolding digits_from
length-digits_from k zero n out h lt = elim h [ ]
length-digits_from zero (suc fuel) n out h lt = ground arith
length-digits_from (suc k) (suc fuel) n out h lt = elim (Bool-cases (ltb n 16)) [
  | inl small ↦ rw small (omega arith)
  | inr large ↦ rw large (
      omega (
        arith,
        length-digits_from k fuel (n / 16) (hex_char (n % 16) ∷ out) (ground arith)
            (omega (arith, pow-suc 16 (suc k))),
      ))
]

-- A number that fits fills its field exactly.
pub length-format_hex : (k n : ℕ) → n < 16 ^ suc k → length (format_hex (suc k) (pos n)) ≡ suc k
unfolding format_hex zero_fill digits
length-format_hex k n h = omega (
  arith,
  length-append (replicate (suc k - length (digits_from (suc n) n [])) b'0')
      (digits_from (suc n) n []),
  length-replicate (suc k - length (digits_from (suc n) n [])) b'0',
  length-digits_from k (suc n) n [] (omega arith) h,
)
