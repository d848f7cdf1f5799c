-- ===== src/Integration/Profile/Numbers.antt =====
-- The characters of a printed number: no blank and no colon among them.
use r60v_home_assistant.Base.{
  ℕ, zero, suc, ◌+◌, ◌/◌, ◌%◌, ◌<◌, ◌≤◌, ◌≡◌, ◌≢◌, refl, inl, inr, false, [], ◌∷◌, arith,
  Bool-cases, ltb, ◌==◌, All, All-append,
}
use r60v_home_assistant.Integration.Profile.{digits, decimal, fmt_num, is_white}

abbrev pub IsPlain : ℕ → Type 0
IsPlain c = (is_white c ≡ false) × (c ≢ b':')

digit-IsPlain : (c : ℕ) → 48 ≤ c → c ≤ 57 → IsPlain c
unfolding is_white
digit-IsPlain c low high = ground arith

-- What holds of the ten digits holds of every character of a printed number.
digits-All : (P : ℕ → Type 0) (fuel n : ℕ) → ((d : ℕ) → d < 10 → P (48 + d)) → All P (digits fuel n)
unfolding digits
digits-All P zero n h = tt
digits-All P (suc fuel) n h = elim (Bool-cases (ltb n 10)) [
  | inl one ↦ rw one (h n (ground arith), tt)
  | inr more ↦ rw more (
      All-append P (digits fuel (n / 10)) ((48 + n % 10) ∷ []) (digits-All P fuel (n / 10) h)
        (h (n % 10) (omega arith), tt))
]

pub decimal-All : (P : ℕ → Type 0) (n : ℕ) → ((d : ℕ) → d < 10 → P (48 + d)) → All P (decimal n)
unfolding decimal
decimal-All P n h = digits-All P (suc n) n h

decimal-IsPlain : (n : ℕ) → All IsPlain (decimal n)
decimal-IsPlain n =
    decimal-All IsPlain n (λ d h. digit-IsPlain (48 + d) (omega arith) (omega arith))

dot-IsPlain : IsPlain b'.'
unfolding is_white
dot-IsPlain = (refl, omega arith)

pub fmt_num-IsPlain : (n : ℕ) → All IsPlain (fmt_num n)
unfolding fmt_num
fmt_num-IsPlain n = elim (Bool-cases (n % 10 == 0)) [
  | inl whole ↦ rw whole (decimal-IsPlain (n / 10))
  | inr part ↦ rw part (
      All-append IsPlain (decimal (n / 10)) (b'.' ∷ decimal (n % 10)) (decimal-IsPlain (n / 10))
        (dot-IsPlain, decimal-IsPlain (n % 10)))
]
