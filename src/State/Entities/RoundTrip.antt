-- ===== src/State/Entities/RoundTrip.antt =====
-- What a command to a writable entity writes, the entity shows.
use r60v_home_assistant.Base.{
  ℕ, zero, suc, ◌+◌, ◌/◌, ◌%◌, ◌≤◌, ◌<◌, ◌≡◌, refl, ap, ◌∙◌, inl, inr, true, false, ◌&&◌,
  Bool-cases, Option, none, some, List, [], ◌∷◌, ◌++◌, arith, ltb, leb, All, All-append,
}
use r60v_home_assistant.Base.Int.{ℤ, pos, negsuc}
use r60v_home_assistant.Base.Results.{ok}
use r60v_home_assistant.Protocol.Text.{Text}
use r60v_home_assistant.Integration.Profile.{digits, decimal, is_white, parts}
use r60v_home_assistant.Integration.Profile.Numbers.{IsPlain}
use r60v_home_assistant.Integration.Profile.Words.{parts-step}
use r60v_home_assistant.Integration.Stream.Keys.{int_dec, int_dec-two}
use r60v_home_assistant.State.Entities.{
  Write, two_digits, strip_front, onto_stripped, strip_end, strip, in_day, time_of, encode_time,
}

digits-small : (fuel n : ℕ) → n < 10 → 0 < fuel → digits fuel n ≡ (48 + n) ∷ []
unfolding digits
digits-small zero n h pos' = absurd (omega arith)
digits-small (suc fuel) n h pos' = let small : ltb n 10 ≡ true = ground arith in rw small refl

-- The two digits of a number below a hundred.
two_digits-pair : (n : ℕ) → n < 100 → two_digits n ≡ (48 + n / 10) ∷ (48 + n % 10) ∷ []
unfolding two_digits decimal digits
two_digits-pair n h = elim (Bool-cases (ltb n 10)) [
  | inl one ↦
      let tens : n / 10 ≡ 0 = ground arith in
      let ones : n % 10 ≡ n = ground arith in rw (one, tens, ones) refl
  | inr more ↦ rw (more, digits-small n (n / 10) (omega arith) (ground arith)) refl
]

digit-IsPlain : (d : ℕ) → d < 10 → IsPlain (48 + d)
unfolding is_white
digit-IsPlain d h = (ground arith, omega arith)

pub two_digits-IsPlain : (n : ℕ) → n < 100 → All IsPlain (two_digits n)
two_digits-IsPlain n h =
    rw (two_digits-pair n h)
      (digit-IsPlain (n / 10) (omega arith), (digit-IsPlain (n % 10) (omega arith), tt))

pub int_dec-two_digits : (n : ℕ) → n < 100 → int_dec (two_digits n) ≡ some (pos n)
int_dec-two_digits n h =
    ap int_dec (two_digits-pair n h)
    ∙ (int_dec-two (n / 10) (n % 10) (omega arith) (omega arith)
        ∙ ap (λ m. some (pos m)) (omega arith))

onto_stripped-plain : (c : ℕ) (s : Text) → is_white c ≡ false → onto_stripped c s ≡ c ∷ s
unfolding onto_stripped
onto_stripped-plain c [] h = rw h refl
onto_stripped-plain c (d ∷ s) h = refl

strip_end-plain : (s : Text) → All (λ c. is_white c ≡ false) s → strip_end s ≡ s
unfolding strip_end
strip_end-plain [] h = refl
strip_end-plain (c ∷ s) h = rw (strip_end-plain s h.1) (onto_stripped-plain c s h.0)

strip_front-plain : (s : Text) → All (λ c. is_white c ≡ false) s → strip_front s ≡ s
unfolding strip_front
strip_front-plain [] h = refl
strip_front-plain (c ∷ s) h = rw (h.0) refl

strip-plain : (s : Text) → All (λ c. is_white c ≡ false) s → strip s ≡ s
unfolding strip
strip-plain s h = ap strip_front (strip_end-plain s h) ∙ strip_front-plain s h

not_white : (s : Text) → All IsPlain s → All (λ c. is_white c ≡ false) s
not_white [] h = tt
not_white (c ∷ s) h = (h.0.0, not_white s h.1)

colon-IsBlack : is_white b':' ≡ false
unfolding is_white
colon-IsBlack = refl

-- A printed time of day is read as its hour and its minute.
pub encode_time-printed :
    (address hour minute : ℕ)
    → hour ≤ 23
    → minute ≤ 59
    → encode_time address (two_digits hour ++ b':' ∷ two_digits minute)
      ≡ ok (address, hour ∷ minute ∷ [])
unfolding encode_time time_of in_day
encode_time-printed address hour minute h m =
    let p = two_digits-IsPlain hour (omega arith) in
    let q = two_digits-IsPlain minute (omega arith) in
    let black =
      All-append (λ c. is_white c ≡ false) (two_digits hour) (b':' ∷ two_digits minute)
        (not_white _ p) (colon-IsBlack, not_white _ q) in
    let h' : leb hour 23 ≡ true = ground arith in
    let m' : leb minute 59 ≡ true = ground arith in
    ap (λ t. time_of address (parts t)) (strip-plain _ black)
    ∙ (ap (time_of address) (parts-step _ _ p q)
        ∙ (ap (λ a. in_day address a (int_dec (two_digits minute)))
              (int_dec-two_digits hour (omega arith))
            ∙ (ap (in_day address (some (pos hour))) (int_dec-two_digits minute (omega arith))
                ∙ rw (h', m') refl)))

-- A write of a time of day.
abbrev pub IsTimeWrite : ℕ → Write → Type 0
IsTimeWrite address c =
    (hour : ℕ) × (minute : ℕ) × (c ≡ (address, hour ∷ minute ∷ [])) × (hour ≤ 23) × (minute ≤ 59)

in_day-IsTimeWrite :
    (address : ℕ) (a b : Option ℤ) (c : Write) → in_day address a b ≡ ok c → IsTimeWrite address c
unfolding in_day
in_day-IsTimeWrite address none b c h = absurd cc
in_day-IsTimeWrite address (some (negsuc n)) b c h = absurd cc
in_day-IsTimeWrite address (some (pos hour)) none c h = absurd cc
in_day-IsTimeWrite address (some (pos hour)) (some (negsuc n)) c h = absurd cc
in_day-IsTimeWrite address (some (pos hour)) (some (pos minute)) c h =
    elim (Bool-cases (leb hour 23 && leb minute 59)) [
      | inl good ↦ (hour, minute, (let k = (rw good at h) in cc), ground arith, ground arith)
      | inr bad ↦ absurd (let k = (rw bad at h) in cc)
    ]

time_of-IsTimeWrite :
    (address : ℕ) (ps : List Text) (c : Write) → time_of address ps ≡ ok c → IsTimeWrite address c
unfolding time_of
time_of-IsTimeWrite address [] c h = absurd cc
time_of-IsTimeWrite address (a ∷ []) c h = absurd cc
time_of-IsTimeWrite address (a ∷ b ∷ []) c h =
    in_day-IsTimeWrite address (int_dec a) (int_dec b) c h
time_of-IsTimeWrite address (a ∷ b ∷ d ∷ ps) c h = absurd cc

pub encode_time-IsTimeWrite :
    (address : ℕ) (payload : Text) (c : Write)
    → encode_time address payload ≡ ok c
    → IsTimeWrite address c
unfolding encode_time
encode_time-IsTimeWrite address payload c h =
    time_of-IsTimeWrite address (parts (strip payload)) c h
