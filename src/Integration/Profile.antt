-- ===== src/Integration/Profile.antt =====
-- The pressure profiles of custom_components/rocket_r60v/entities.py: five steps of a time and a
-- pressure, which are numbers of tenths. `float` is a parameter: what `round(float(text), 1)` gives.
pub mod Numbers
pub mod Words
pub mod Blocks
pub mod RoundTrip
use r60v_home_assistant.Base.{
  ℕ, zero, suc, ◌+◌, ◌-◌, ◌*◌, ◌/◌, ◌%◌, Bool, true, false, ◌&&◌, ◌||◌, not, Option, none, some,
  List, [], ◌∷◌, ◌++◌, ltb, leb, ◌==◌, if◌then◌else◌, length, get_elem?, replicate,
}
use mathlib.Core.Option
use r60v_home_assistant.Base.Int.{ℤ, pos, negsuc}
use r60v_home_assistant.Base.Results.{Result, ok, err, ◌>>=◌, ◌>>◌, guard}
use r60v_home_assistant.Protocol.Text.{Text}

abbrev pub profile_len : ℕ
profile_len = 15

abbrev pub profile_steps : ℕ
profile_steps = 5

-- The bounds, in tenths.
abbrev pub profile_timing_range : ℕ × ℕ
profile_timing_range = (0, 600)

abbrev pub profile_pressure_range : ℕ × ℕ
profile_pressure_range = (0, 100)

-- What `round(float(text), 1)` gives: a number of tenths, an infinity or no number, or the
-- `ValueError` of `float`.
pub data Reading : Type 0 where
  tenths : ℤ → Reading
  not_finite : Reading
  unreadable : Reading

-- The messages of the `ValueError` of `encode_profile`.
pub data ProfileError : Type 0 where
  too_many_steps not_a_pair non_numeric time_out_of_range pressure_out_of_range : ProfileError

-- The digits of a number, on fuel.
unfoldable pub digits : ℕ → ℕ → Text
digits zero n = []
digits (suc fuel) n =
    let front = digits fuel (n / 10) in
    if ltb n 10 then (b'0' + n) ∷ [] else front ++ (b'0' + n % 10) ∷ []

-- `str(n)`; each digit divides the number by ten, so there are fewer than `n + 1` behind the first.
unfoldable pub decimal : ℕ → Text
unfolding digits
decimal n = digits (suc n) n

-- `_fmt_num` of a number of tenths.
unfoldable pub fmt_num : ℕ → Text
unfolding decimal
fmt_num n = if n % 10 == 0 then decimal (n / 10) else decimal (n / 10) ++ b'.' ∷ decimal (n % 10)

-- `f"{_fmt_num(seconds)}:{_fmt_num(bar)}"`
unfoldable pub step_text : ℕ → ℕ → Text
unfolding fmt_num
step_text seconds bar = fmt_num seconds ++ b':' ∷ fmt_num bar

-- `" ".join(steps)`
unfoldable pub join : List Text → Text
join [] = []
join (w ∷ []) = w
join (w ∷ v ∷ ws) = w ++ b' ' ∷ join (v ∷ ws)

-- The step at an index: two bytes of time, low byte first, and behind the times one of pressure.
-- `none` is the `IndexError`.
step_of : Option ℕ → Option ℕ → Option ℕ → Option Text
unfolding step_text
step_of (some low) (some high) (some bar) = some (step_text (low + high * 256) bar)
step_of _ _ _ = none

steps_from : ℕ → ℕ → List ℕ → Option (List Text)
unfolding step_of
steps_from zero i block = some []
steps_from (suc n) i block =
    let rest = steps_from n (i + 1) block in
    elim (step_of (get_elem? block (i * 2)) (get_elem? block (i * 2 + 1))
      (get_elem? block (10 + i))) [ none ↦ none | some step ↦ Option.map (◌∷◌ step) rest ]

unfoldable pub decode_profile : List ℕ → Option Text
unfolding steps_from join
decode_profile block = Option.map join (steps_from profile_steps 0 block)

-- `str.isspace`
unfoldable pub is_white : ℕ → Bool
is_white c =
    c == 32
    || (leb 9 c && leb c 13)
    || (leb 28 c && leb c 31)
    || c == 0x85
    || c == 0xA0
    || c == 0x1680
    || (leb 0x2000 c && leb c 0x200A)
    || c == 0x2028
    || c == 0x2029
    || c == 0x202F
    || c == 0x205F
    || c == 0x3000

unless_empty : Text → List Text → List Text
unless_empty [] ws = ws
unless_empty (c ∷ w) ws = (c ∷ w) ∷ ws

-- The word at the front, which may be empty, and the words behind it.
cut : Text → Text × List Text
unfolding is_white unless_empty
cut [] = ([], [])
cut (c ∷ s) = let (w, ws) = cut s in if is_white c then ([], unless_empty w ws) else (c ∷ w, ws)

-- `text.split()`
unfoldable pub words : Text → List Text
unfolding cut unless_empty
words s = let (w, ws) = cut s in unless_empty w ws

onto_first : ℕ → List Text → List Text
onto_first c [] = (c ∷ []) ∷ []
onto_first c (p ∷ ps) = (c ∷ p) ∷ ps

-- `step.split(":")`
unfoldable pub parts : Text → List Text
unfolding onto_first
parts [] = [] ∷ []
parts (c ∷ s) = let rest = parts s in if c == b':' then [] ∷ rest else onto_first c rest

numeric : Reading → Result ProfileError (Option ℤ)
numeric (tenths n) = ok (some n)
numeric not_finite = ok none
numeric unreadable = err non_numeric

-- `if not lo <= value <= hi: raise`; an infinity, or no number, is never within.
within : ℕ × ℕ → ProfileError → Option ℤ → Result ProfileError ℕ
within (lo, hi) e (some (pos n)) = if leb lo n && leb n hi then ok n else err e
within (lo, hi) e _ = err e

encode_pair : (Text → Reading) → List Text → Result ProfileError (ℕ × ℕ)
unfolding numeric within
encode_pair number (a ∷ b ∷ []) = do
  seconds ← numeric (number a)
  bar ← numeric (number b)
  time ← within profile_timing_range time_out_of_range seconds
  pressure ← within profile_pressure_range pressure_out_of_range bar
  ok (time, pressure)
encode_pair number _ = err not_a_pair

-- What a step adds in front of those behind it.
abbrev with_step : ℕ × ℕ → List ℕ × List ℕ → List ℕ × List ℕ
with_step (time, pressure) (times, pressures) =
    (time % 256 ∷ time / 256 % 256 ∷ times, pressure ∷ pressures)

-- The loop over the steps: what it appends to `t_lo_hi` and to `pressures`.
encode_steps : (Text → Reading) → List Text → Result ProfileError (List ℕ × List ℕ)
unfolding encode_pair
encode_steps number [] = ok ([], [])
encode_steps number (step ∷ steps) = do
  first ← encode_pair number (parts step)
  rest ← encode_steps number steps
  ok (with_step first rest)

-- The steps that are missing are filled with zeros. `strip` before `split` changes nothing.
unfoldable pub encode_profile : (Text → Reading) → Text → Result ProfileError (List ℕ)
unfolding encode_steps
encode_profile number text = do
  let steps = words text
  guard (leb (length steps) profile_steps) too_many_steps
  (times, pressures) ← encode_steps number steps
  let missing = profile_steps - length steps
  ok ((times ++ replicate (2 * missing) 0) ++ (pressures ++ replicate missing 0))
