-- ===== src/Protocol/Frame/Pieces.antt =====
-- How `parse_frame` cuts a frame, and how the texts that it compares behave.
use r60v_home_assistant.Base.{
  ℕ, ◌-◌, ◌≡◌, refl, sym, ap, ◌⊎◌, true, false, [], ◌∷◌, ◌++◌, append_assoc, arith, length,
  length-append, take-append, drop-append, All,
}
use r60v_home_assistant.Protocol.Text.{Text, text_eq, upper}
use r60v_home_assistant.Protocol.Hex.Reading.{IsDigit}
use r60v_home_assistant.Protocol.Frame.{
  read, write, ack, is_command, body_of, supplied_of, payload_of,
}

pub text_eq_refl : (s : Text) → text_eq s s ≡ true
text_eq_refl [] = refl
text_eq_refl (c ∷ s) = ground (arith, text_eq_refl s)

pub text_eq_sound : (s t : Text) → text_eq s t ≡ true → s ≡ t
text_eq_sound [] [] h = refl
text_eq_sound [] (d ∷ t) h = cc
text_eq_sound (c ∷ s) [] h = cc
text_eq_sound (c ∷ s) (d ∷ t) h = ground (arith, text_eq_sound s t)

pub command-cases : (c : Text) → is_command c ≡ true → (c ≡ read) ⊎ (c ≡ write)
command-cases c h = ground (arith, text_eq_sound c read, text_eq_sound c write)

-- Printed digits are in upper case already.
pub upper-digits : (s : Text) → All IsDigit s → upper s ≡ s
unfolding upper
upper-digits [] h = refl
upper-digits (c ∷ s) h = rw (h.0.not_lower) (ap (◌∷◌ c) (upper-digits s h.1))

pub digits-ne-ack : (s : Text) → All IsDigit s → text_eq s ack ≡ false
digits-ne-ack [] h = refl
digits-ne-ack (c ∷ s) h = ground (arith, h.0.not_big_o)

pub two_chars : (s : Text) → length s ≡ 2 → (a : ℕ) × (b : ℕ) × (s ≡ a ∷ b ∷ [])
two_chars [] h = absurd (omega arith)
two_chars (a ∷ []) h = absurd (omega arith)
two_chars (a ∷ b ∷ []) h = (a, b, refl)
two_chars (a ∷ b ∷ c ∷ s) h = absurd (omega arith)

pub four_chars :
    (s : Text) → length s ≡ 4 → (a : ℕ) × (b : ℕ) × (c : ℕ) × (d : ℕ) × (s ≡ a ∷ b ∷ c ∷ d ∷ [])
four_chars [] h = absurd (omega arith)
four_chars (a ∷ []) h = absurd (omega arith)
four_chars (a ∷ b ∷ []) h = absurd (omega arith)
four_chars (a ∷ b ∷ c ∷ []) h = absurd (omega arith)
four_chars (a ∷ b ∷ c ∷ d ∷ []) h = (a, b, c, d, refl)
four_chars (a ∷ b ∷ c ∷ d ∷ e ∷ s) h = absurd (omega arith)

module _ (body check : Text) (two : length check ≡ 2) where
  cut_at : length (body ++ check) - 2 ≡ length body
  cut_at = omega (arith, length-append body check)

  pub body_of-append : body_of (body ++ check) ≡ body
  body_of-append = take-append body check _ cut_at

  pub supplied_of-append : supplied_of (body ++ check) ≡ check
  supplied_of-append = drop-append body check _ cut_at

  pub payload_of-append :
      (envelope payload : Text)
      → length envelope ≡ 9
      → body ≡ envelope ++ payload
      → payload_of (body ++ check) ≡ payload
  payload_of-append envelope payload nine e =
      rw
        (
          e,
          append_assoc envelope payload check,
          drop-append envelope (payload ++ check) 9 (sym nine),
        )
        (take-append payload check _
          (omega (arith, length-append envelope (payload ++ check), length-append payload check)))
