-- ===== src/Integration/Profile/RoundTrip.antt =====
-- A decoded profile encodes to the same block.
use r60v_home_assistant.Base.{
  ℕ, suc, ◌+◌, ◌*◌, ◌/◌, ◌%◌, ◌≤◌, ◌≡◌, ◌≢◌, refl, ap, sym, ◌∙◌, false, List, [], ◌∷◌, ◌++◌,
  append-nil, arith, length, All, All-append, some,
}
use mathlib.Core.Option
use r60v_home_assistant.Base.Int.{pos}
use r60v_home_assistant.Base.Results.{ok}
use r60v_home_assistant.Protocol.Text.{Text}
use r60v_home_assistant.Integration.Profile.{
  Reading, tenths, fmt_num, step_text, join, step_of, steps_from, decode_profile, is_white, parts,
  numeric, within, encode_pair, encode_steps, encode_profile,
}
use r60v_home_assistant.Integration.Profile.Numbers.{IsPlain, fmt_num-IsPlain}
use r60v_home_assistant.Integration.Profile.Words.{IsWord, words-join, parts-step}
use r60v_home_assistant.Integration.Profile.Blocks.{IsStep, times, pressures, block_of, IsProfile}

-- The text of each step.
texts : List (ℕ × ℕ) → List Text
texts [] = []
texts ((time, pressure) ∷ steps) = step_text time pressure ∷ texts steps

plain-white : (s : Text) → All IsPlain s → All (λ c. is_white c ≡ false) s
plain-white [] h = tt
plain-white (c ∷ s) h = (h.0.0, plain-white s h.1)

ends-nonempty : (s : Text) (c : ℕ) (t : Text) → s ++ c ∷ t ≢ []
ends-nonempty [] c t e = cc
ends-nonempty (d ∷ s) c t e = cc

step_text-IsWord : (time pressure : ℕ) → IsWord (step_text time pressure)
unfolding step_text
step_text-IsWord time pressure = (
  ends-nonempty (fmt_num time) b':' (fmt_num pressure),
  All-append _ (fmt_num time) (b':' ∷ fmt_num pressure)
      (plain-white (fmt_num time) (fmt_num-IsPlain time))
      (unfold is_white in refl, plain-white (fmt_num pressure) (fmt_num-IsPlain pressure)),
)

texts-IsWord : (steps : List (ℕ × ℕ)) → All IsWord (texts steps)
unfolding texts
texts-IsWord [] = tt
texts-IsWord ((time, pressure) ∷ steps) = (step_text-IsWord time pressure, texts-IsWord steps)

length-texts : (steps : List (ℕ × ℕ)) → length (texts steps) ≡ length steps
unfolding texts
length-texts [] = refl
length-texts ((time, pressure) ∷ steps) = ap suc (length-texts steps)

-- Two bytes make up a time again.
two_bytes : (time : ℕ) → time ≤ 600 → time % 256 + time / 256 % 256 * 256 ≡ time
two_bytes time h = omega arith

one_step :
    (low high : ℕ) (time pressure : ℕ)
    → low + high * 256 ≡ time
    → step_of (some low) (some high) (some pressure) ≡ some (step_text time pressure)
unfolding step_of
one_step low high time pressure h = rw h refl

decode-five :
    (steps : List (ℕ × ℕ))
    → length steps ≡ 5
    → All IsStep steps
    → steps_from 5 0 (block_of steps) ≡ some (texts steps)
unfolding steps_from texts step_of
decode-five [] five h = absurd (omega arith)
decode-five (a ∷ []) five h = absurd (omega arith)
decode-five (a ∷ b ∷ []) five h = absurd (omega arith)
decode-five (a ∷ b ∷ c ∷ []) five h = absurd (omega arith)
decode-five (a ∷ b ∷ c ∷ d ∷ []) five h = absurd (omega arith)
decode-five ((t0, p0) ∷ (t1, p1) ∷ (t2, p2) ∷ (t3, p3) ∷ (t4, p4) ∷ []) five h =
    rw (two_bytes t0 h.0.0) rw (two_bytes t1 h.1.0.0) rw (two_bytes t2 h.1.1.0.0) rw
      (two_bytes t3 h.1.1.1.0.0) rw (two_bytes t4 h.1.1.1.1.0.0) refl
decode-five (a ∷ b ∷ c ∷ d ∷ e ∷ f ∷ steps) five h = absurd (omega arith)

module _ (number : Text → Reading)
    (reads_printed : (n : ℕ) → n ≤ 600 → number (fmt_num n) ≡ tenths (pos n)) where
  encode-step :
      (time pressure : ℕ)
      → IsStep (time, pressure)
      → encode_pair number (parts (step_text time pressure)) ≡ ok (time, pressure)
  unfolding step_text encode_pair numeric within
  encode-step time pressure h =
      rw
        (parts-step (fmt_num time) (fmt_num pressure) (fmt_num-IsPlain time)
          (fmt_num-IsPlain pressure))
        rw (reads_printed time h.0) rw (reads_printed pressure (omega (arith, h.1))) (ground arith)

  encode-texts :
      (steps : List (ℕ × ℕ))
      → All IsStep steps
      → encode_steps number (texts steps) ≡ ok (times steps, pressures steps)
  unfolding texts encode_steps
  encode-texts [] h = refl
  encode-texts ((time, pressure) ∷ steps) h =
      rw (encode-step time pressure h.0) rw (encode-texts steps h.1) refl

  encode-join :
      (steps : List (ℕ × ℕ))
      → length steps ≡ 5
      → All IsStep steps
      → encode_profile number (join (texts steps)) ≡ ok (block_of steps)
  unfolding encode_profile
  encode-join steps five h =
      let e : length (texts steps) ≡ 5 = length-texts steps ∙ five in
      rw (words-join (texts steps) (texts-IsWord steps)) rw e rw (encode-texts steps h) rw
        (append-nil (times steps)) rw (append-nil (pressures steps)) refl

  -- Where `float` reads back the numbers from 0 to 60 that are printed with at most one decimal,
  -- the block of any five steps in range decodes to a text, and that text encodes to the block.
  pub encode_profile-decode_profile :
      (block : List ℕ)
      → IsProfile block
      → (text : Text) × (decode_profile block ≡ some text) × (encode_profile number text ≡ ok block)
  unfolding decode_profile
  encode_profile-decode_profile block h = (
    join (texts h.steps),
    ap (λ b. Option.map join (steps_from 5 0 b)) h.same
        ∙ ap (Option.map join) (decode-five h.steps h.five h.in_range),
    encode-join h.steps h.five h.in_range ∙ ap ok (sym h.same),
  )
