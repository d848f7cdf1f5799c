-- ===== src/Integration/Profile/Blocks.antt =====
-- What the encoder writes: the block of five steps in range.
use r60v_home_assistant.Base.{
  ℕ, zero, suc, ◌-◌, ◌*◌, ◌/◌, ◌%◌, ◌≤◌, ◌≡◌, refl, ap, Bool, true, false, List, [], ◌∷◌, ◌++◌,
  arith, leb, length, length-append, replicate, All, All-append,
}
use r60v_home_assistant.Base.Results.{Result, ok, err, ◌>>=◌, ◌>>◌, guard}
use r60v_home_assistant.Protocol.Text.{Text}
use r60v_home_assistant.Integration.Profile.{
  Reading, ProfileError, too_many_steps, numeric, within, encode_pair, with_step, encode_steps,
  encode_profile, parts, words,
}

-- A step in range: its time and its pressure in tenths.
abbrev pub IsStep : ℕ × ℕ → Type 0
IsStep (time, pressure) = (time ≤ 600) × (pressure ≤ 100)

abbrev pub times : List (ℕ × ℕ) → List ℕ
times [] = []
times ((time, pressure) ∷ steps) = time % 256 ∷ time / 256 % 256 ∷ times steps

abbrev pub pressures : List (ℕ × ℕ) → List ℕ
pressures [] = []
pressures ((time, pressure) ∷ steps) = pressure ∷ pressures steps

-- The block of the steps.
abbrev pub block_of : List (ℕ × ℕ) → List ℕ
block_of steps = times steps ++ pressures steps

encode_pair-IsStep :
    (number : Text → Reading) (ps : List Text) (step : ℕ × ℕ)
    → encode_pair number ps ≡ ok step
    → IsStep step
unfolding encode_pair numeric within
encode_pair-IsStep number [] step h = cc
encode_pair-IsStep number (a ∷ []) step h = cc
encode_pair-IsStep number (a ∷ b ∷ c ∷ ps) step h = cc
encode_pair-IsStep number (a ∷ b ∷ []) (t, p) h = ground arith

-- The lists that the loop builds are those of steps in range, one for each word.
record Built (n : ℕ) (ts ps : List ℕ) : Type 0 where
  steps : List (ℕ × ℕ)
  as_many : length steps ≡ n
  in_range : All IsStep steps
  of_times : ts ≡ times steps
  of_pressures : ps ≡ pressures steps

built_lem :
    (m : Result ProfileError (ℕ × ℕ)) (r : Result ProfileError (List ℕ × List ℕ)) (n : ℕ)
    (ts ps : List ℕ)
    → ((step : ℕ × ℕ) → m ≡ ok step → IsStep step)
    → ((ts' ps' : List ℕ) → r ≡ ok (ts', ps') → Built n ts' ps')
    → (do first ← m; rest ← r; ok (with_step first rest)) ≡ ok (ts, ps)
    → Built (suc n) ts ps
built_lem (err e) r n ts ps one more h = cc
built_lem (ok step) (err e) n ts ps one more h = cc
built_lem (ok (time, pressure)) (ok (ts', ps')) n ts ps one more h =
    let b = more ts' ps' refl in
    record {
      steps = (time, pressure) ∷ b.steps;
      as_many = ap suc b.as_many;
      in_range = (one (time, pressure) refl, b.in_range);
      of_times = cc;
      of_pressures = cc;
    }

built :
    (number : Text → Reading) (ws : List Text) (ts ps : List ℕ)
    → encode_steps number ws ≡ ok (ts, ps)
    → Built (length ws) ts ps
unfolding encode_steps
built number [] ts ps h = record {
  steps = [];
  as_many = refl;
  in_range = tt;
  of_times = cc;
  of_pressures = cc;
}
built number (w ∷ ws) ts ps h =
    built_lem (encode_pair number (parts w)) (encode_steps number ws) (length ws) ts ps
      (encode_pair-IsStep number (parts w)) (built number ws) h

abbrev no_steps : ℕ → List (ℕ × ℕ)
no_steps n = replicate n (0, 0)

times-no_steps :
    (steps : List (ℕ × ℕ)) (n : ℕ)
    → times (steps ++ no_steps n) ≡ times steps ++ replicate (2 * n) 0
times-no_steps [] zero = refl
times-no_steps [] (suc n) =
    let e : 2 * suc n ≡ suc (suc (2 * n)) = omega arith in
    rw e (ap (λ l. 0 ∷ 0 ∷ l) (times-no_steps [] n))
times-no_steps ((t, p) ∷ steps) n = ap (λ l. t % 256 ∷ t / 256 % 256 ∷ l) (times-no_steps steps n)

pressures-no_steps :
    (steps : List (ℕ × ℕ)) (n : ℕ)
    → pressures (steps ++ no_steps n) ≡ pressures steps ++ replicate n 0
pressures-no_steps [] zero = refl
pressures-no_steps [] (suc n) = ap (◌∷◌ 0) (pressures-no_steps [] n)
pressures-no_steps ((t, p) ∷ steps) n = ap (◌∷◌ p) (pressures-no_steps steps n)

no_steps-in_range : (n : ℕ) → All IsStep (no_steps n)
no_steps-in_range zero = tt
no_steps-in_range (suc n) = ((omega arith, omega arith), no_steps-in_range n)

length-no_steps : (n : ℕ) → length (no_steps n) ≡ n
length-no_steps zero = refl
length-no_steps (suc n) = ap suc (length-no_steps n)

-- Five steps in range, whose block it is.
pub record IsProfile (block : List ℕ) : Type 0 where
  pub steps : List (ℕ × ℕ)
  pub five : length steps ≡ 5
  pub in_range : All IsStep steps
  pub same : block ≡ block_of steps

filled :
    (n : ℕ) (ts ps block : List ℕ)
    → n ≤ 5
    → Built n ts ps
    → block ≡ (ts ++ replicate (2 * (5 - n)) 0) ++ (ps ++ replicate (5 - n) 0)
    → IsProfile block
filled n ts ps block few b h = record {
  steps = b.steps ++ no_steps (5 - n);
  five =
      omega
        (arith, length-append {0} b.steps (no_steps (5 - n)), length-no_steps (5 - n), b.as_many);
  in_range = All-append IsStep b.steps (no_steps (5 - n)) b.in_range (no_steps-in_range (5 - n));
  same = cc (times-no_steps b.steps (5 - n), pressures-no_steps b.steps (5 - n));
}

encoded :
    (ws : List Text) (few : Bool) (r : Result ProfileError (List ℕ × List ℕ)) (block : List ℕ)
    → leb (length ws) 5 ≡ few
    → ((ts ps : List ℕ) → r ≡ ok (ts, ps) → Built (length ws) ts ps)
    → (do
      guard few too_many_steps
      (times, pressures) ← r
      ok (
          (times ++ replicate (2 * (5 - length ws)) 0)
          ++ (pressures ++ replicate (5 - length ws) 0)))
      ≡ ok block
    → IsProfile block
encoded ws false r block e more h = cc
encoded ws true (err x) block e more h = cc
encoded ws true (ok (ts, ps)) block e more h =
    filled (length ws) ts ps block (ground arith) (more ts ps refl) (cc)

-- Every text that the encoder accepts becomes the block of five steps in range.
pub encode_profile-IsProfile :
    (number : Text → Reading) (text : Text) (block : List ℕ)
    → encode_profile number text ≡ ok block
    → IsProfile block
unfolding encode_profile
encode_profile-IsProfile number text block h =
    encoded (words text) (leb (length (words text)) 5) (encode_steps number (words text)) block refl
      (built number (words text)) h
