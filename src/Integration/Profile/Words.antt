-- ===== src/Integration/Profile/Words.antt =====
-- Splitting what was joined: words by blanks, and the two parts of a step by a colon.
use r60v_home_assistant.Base.{◌≡◌, ◌≢◌, refl, ap, ◌∙◌, false, List, [], ◌∷◌, ◌++◌, arith, All}
use r60v_home_assistant.Protocol.Text.{Text}
use r60v_home_assistant.Integration.Profile.{
  is_white, unless_empty, cut, words, join, onto_first, parts,
}
use r60v_home_assistant.Integration.Profile.Numbers.{IsPlain}

abbrev pub IsWord : Text → Type 0
IsWord w = (w ≢ []) × All (λ c. is_white c ≡ false) w

cut_word : (w : Text) → All (λ c. is_white c ≡ false) w → cut w ≡ (w, [])
unfolding cut
cut_word [] h = refl
cut_word (c ∷ w) h = rw (cut_word w h.1) rw (h.0) refl

cut_first : (w s : Text) → All (λ c. is_white c ≡ false) w → cut (w ++ b' ' ∷ s) ≡ (w, words s)
unfolding cut words is_white
cut_first [] s h = refl
cut_first (c ∷ w) s h = rw (cut_first w s h.1) rw (h.0) refl

unless_empty-word : (w : Text) (ws : List Text) → w ≢ [] → unless_empty w ws ≡ w ∷ ws
unfolding unless_empty
unless_empty-word [] ws h = absurd (h refl)
unless_empty-word (c ∷ w) ws h = refl

-- Words that were joined by blanks are found again.
pub words-join : (ws : List Text) → All IsWord ws → words (join ws) ≡ ws
unfolding words join
words-join [] h = unfold cut unless_empty in refl
words-join (w ∷ []) h = rw (cut_word w h.0.1) (unless_empty-word w [] h.0.0)
words-join (w ∷ v ∷ ws) h =
    rw (cut_first w (join (v ∷ ws)) h.0.1)
      (unless_empty-word w (words (join (v ∷ ws))) h.0.0 ∙ ap (◌∷◌ w) (words-join (v ∷ ws) h.1))

parts-plain : (s : Text) → All IsPlain s → parts s ≡ s ∷ []
unfolding parts onto_first
parts-plain [] h = refl
parts-plain (c ∷ s) h = ground (arith, parts-plain s h.1)

-- A step is split at its colon.
pub parts-step : (s t : Text) → All IsPlain s → All IsPlain t → parts (s ++ b':' ∷ t) ≡ s ∷ t ∷ []
unfolding parts onto_first
parts-step [] t h k = rw (parts-plain t k)
parts-step (c ∷ s) t h k = ground (arith, parts-step s t h.1 k)
