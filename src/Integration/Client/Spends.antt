-- ===== src/Integration/Client/Spends.antt =====
-- What steps of the client spend on the line, and how it adds up.
use r60v_home_assistant.Base.{
  ℕ, ◌+◌, ◌≤◌, ◌≡◌, refl, ap, ◌∙◌, Bool, true, false, List, [], ◌∷◌, ◌++◌, arith, if◌then◌else◌,
}
use r60v_home_assistant.Client.{Wire, sends, opens, closes, pauses}
use r60v_home_assistant.Integration.Client.{R60vClient}

-- The frames that were written, and the connections that were opened.
abbrev pub frames_in : List Wire → ℕ
frames_in [] = 0
frames_in (sends frame want ∷ log) = frames_in log + 1
frames_in (opens ∷ log) = frames_in log
frames_in (closes ∷ log) = frames_in log
frames_in (pauses n ∷ log) = frames_in log

abbrev pub openings_in : List Wire → ℕ
openings_in [] = 0
openings_in (opens ∷ log) = openings_in log + 1
openings_in (sends frame want ∷ log) = openings_in log
openings_in (closes ∷ log) = openings_in log
openings_in (pauses n ∷ log) = openings_in log

frames_in-append : (log more : List Wire) → frames_in (log ++ more) ≡ frames_in log + frames_in more
frames_in-append [] more = omega arith
frames_in-append (sends frame want ∷ log) more = omega (arith, frames_in-append log more)
frames_in-append (opens ∷ log) more = omega (arith, frames_in-append log more)
frames_in-append (closes ∷ log) more = omega (arith, frames_in-append log more)
frames_in-append (pauses n ∷ log) more = omega (arith, frames_in-append log more)

openings_in-append :
    (log more : List Wire) → openings_in (log ++ more) ≡ openings_in log + openings_in more
openings_in-append [] more = omega arith
openings_in-append (sends frame want ∷ log) more = omega (arith, openings_in-append log more)
openings_in-append (opens ∷ log) more = omega (arith, openings_in-append log more)
openings_in-append (closes ∷ log) more = omega (arith, openings_in-append log more)
openings_in-append (pauses n ∷ log) more = omega (arith, openings_in-append log more)

-- From one state to the other no more than so many frames were written and connections opened.
pub record Spends (frames openings : ℕ) (c d : R60vClient) : Type 0 where
  pub few_frames : frames_in d.log ≤ frames_in c.log + frames
  pub few_openings : openings_in d.log ≤ openings_in c.log + openings
  pub same_retries : d.max_retries ≡ c.max_retries

pub nothing : (c : R60vClient) → Spends 0 0 c c
nothing c = record { few_frames = omega arith; few_openings = omega arith; same_retries = refl }

pub chain :
    {a b a' b' : ℕ} (c d e : R60vClient)
    → Spends a b c d
    → Spends a' b' d e
    → Spends (a + a') (b + b') c e
chain c d e h k = record {
  few_frames = omega (arith, h.few_frames, k.few_frames);
  few_openings = omega (arith, h.few_openings, k.few_openings);
  same_retries = k.same_retries ∙ h.same_retries;
}

pub widen : (a b a' b' : ℕ) (c d : R60vClient) → a ≤ a' → b ≤ b' → Spends a b c d → Spends a' b' c d
widen a b a' b' c d h k s = record {
  few_frames = omega (arith, s.few_frames);
  few_openings = omega (arith, s.few_openings);
  same_retries = s.same_retries;
}

pub logged :
    (c : R60vClient) (d : R60vClient) (w : Wire)
    → d.log ≡ c.log ++ w ∷ []
    → d.max_retries ≡ c.max_retries
    → Spends (frames_in (w ∷ [])) (openings_in (w ∷ [])) c d
logged c d w h same = record {
  few_frames = omega (arith, ap frames_in h, frames_in-append c.log (w ∷ []));
  few_openings = omega (arith, ap openings_in h, openings_in-append c.log (w ∷ []));
  same_retries = same;
}

pub either-Spends :
    (a b : ℕ) (test : Bool) (c d e : R60vClient)
    → Spends a b c d
    → Spends a b c e
    → Spends a b c (if test then d else e)
either-Spends a b true c d e h k = h
either-Spends a b false c d e h k = k

pub pair-Spends :
    {A : Type 0} (a b : ℕ) (test : Bool) (c : R60vClient) (x y : R60vClient × A)
    → Spends a b c x.0
    → Spends a b c y.0
    → Spends a b c (if test then x else y).0
pair-Spends a b true c x y h k = h
pair-Spends a b false c x y h k = k

pub idle : {a b : ℕ} (c : R60vClient) → Spends a b c c
idle c = record { few_frames = omega arith; few_openings = omega arith; same_retries = refl }
