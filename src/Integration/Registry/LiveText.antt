-- ===== src/Integration/Registry/LiveText.antt =====
-- A register that holds ASCII text reads as that text.
use r60v_home_assistant.Base.{
  ℕ, ◌<◌, ◌≡◌, ◌≢◌, refl, true, some, [], ◌∷◌, ◌++◌, arith, ltb, map, All,
}
use r60v_home_assistant.Base.Int.{pos}
use r60v_home_assistant.Protocol.Text.{Text}
use r60v_home_assistant.Integration.Snapshot.{StateSnapshot, live_bytes}
use r60v_home_assistant.Integration.Registry.{live_text, ascii, ascii_char, rstrip, trimmed}

ascii-map : (text : Text) → All (λ c. c < 128) text → ascii (map pos text) ≡ some text
unfolding ascii ascii_char
ascii-map [] h = refl
ascii-map (c ∷ text) h =
    let small : ltb c 128 ≡ true = ground (arith, h.0) in
    rw (small, ascii, ascii_char) (rw (ascii-map text h.1) refl)

trimmed-append :
    (c : ℕ) (text : Text) (last : ℕ) → trimmed c (text ++ last ∷ []) ≡ c ∷ text ++ last ∷ []
unfolding trimmed
trimmed-append c [] last = refl
trimmed-append c (d ∷ text) last = refl

-- Text whose last character is neither a blank nor a zero is not trimmed.
rstrip-append :
    (text : Text) (last : ℕ) → last ≢ 32 → last ≢ 0 → rstrip (text ++ last ∷ []) ≡ text ++ last ∷ []
unfolding rstrip trimmed
rstrip-append [] last h k = ground arith
rstrip-append (c ∷ text) last h k =
    rw (rstrip-append text last h k) (unfold trimmed in trimmed-append c text last)

pub live_text-ascii :
    (address : ℕ) (text : Text) (last : ℕ) (s : StateSnapshot)
    → All (λ c. c < 128) (text ++ last ∷ [])
    → last ≢ 32
    → last ≢ 0
    → live_bytes address s ≡ map pos (text ++ last ∷ [])
    → live_text address s ≡ some (text ++ last ∷ [])
unfolding live_text
live_text-ascii address text last s h k l held =
    rw held rw (ascii-map (text ++ last ∷ []) h) rw (rstrip-append text last k l) refl
