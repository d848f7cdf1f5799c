-- ===== src/Integration/Climate/Panel.antt =====
-- The temperature on the front panel, read back from the display register.
use r60v_home_assistant.Base.{
  ℕ, suc, ◌+◌, ◌-◌, ◌*◌, ◌/◌, ◌%◌, ◌≤◌, ◌<◌, ◌≡◌, refl, ap, sym, ◌∙◌, inl, inr, Bool, true, false,
  Bool-cases, some, [], ◌∷◌, ◌++◌, arith, ltb, leb, map, All, All-append, append_assoc,
}
use r60v_home_assistant.Base.Int.{pos}
use r60v_home_assistant.Protocol.Text.{Text, codes, upper}
use r60v_home_assistant.Protocol.Address.{display}
use r60v_home_assistant.Integration.Snapshot.{StateSnapshot, live_bytes}
use r60v_home_assistant.Integration.Profile.{digits, decimal, is_white}
use r60v_home_assistant.Integration.Profile.Numbers.{decimal-All}
use r60v_home_assistant.Integration.Registry.{live_text}
use r60v_home_assistant.Integration.Registry.LiveText.{live_text-ascii}
use r60v_home_assistant.Integration.Climate.{
  parse_display_brew_temp, number_at, more_digits, is_digit, marked, skip_white, machine_to_celsius,
  nearest, current_c, panel_or_register, or_register, brew_boiler,
}

-- The panel's unit marks.
abbrev pub mark : Bool → ℕ
mark true = b'F'
mark false = b'C'

-- What the panel shows of the brew boiler's temperature.
unfoldable pub panel : ℕ → Bool → Text
panel shown fahrenheit = codes "BREW BOIL. " ++ decimal shown ++ b'*' ∷ mark fahrenheit ∷ []

digits_one : (fuel n : ℕ) → n < 10 → digits (suc fuel) n ≡ (48 + n) ∷ []
unfolding digits
digits_one fuel n h = ground arith

digits_more :
    (fuel n : ℕ) → 10 ≤ n → digits (suc fuel) n ≡ digits fuel (n / 10) ++ (48 + n % 10) ∷ []
unfolding digits
digits_more fuel n h = ground arith

digits_two :
    (fuel n : ℕ) → 10 ≤ n → n < 100 → digits (suc (suc fuel)) n ≡ (48 + n / 10) ∷ (48 + n % 10) ∷ []
digits_two fuel n h k =
    rw (digits_more (suc fuel) n h) rw (digits_one fuel (n / 10) (omega arith)) refl

digits_three :
    (fuel n : ℕ)
    → 100 ≤ n
    → n < 1000
    → digits (suc (suc (suc fuel))) n ≡ (48 + n / 100) ∷ (48 + n / 10 % 10) ∷ (48 + n % 10) ∷ []
digits_three fuel n h k =
    let e : n / 10 / 10 ≡ n / 100 = omega arith in
    rw (digits_more (suc (suc fuel)) n (omega arith)) rw
      (digits_two fuel (n / 10) (omega arith) (omega arith)) rw e refl

digit : (d : ℕ) → d < 10 → is_digit (48 + d) ≡ true
unfolding is_digit
digit d h = ground arith

star : is_digit b'*' ≡ false
unfolding is_digit
star = refl

number_one : (n : ℕ) (s : Text) → n < 10 → number_at ((48 + n) ∷ b'*' ∷ s) ≡ marked (n, b'*' ∷ s)
unfolding number_at more_digits
number_one n s h = let e : 48 + n - 48 ≡ n = omega arith in rw (digit n h) rw e refl

number_two :
    (a b : ℕ) (s : Text)
    → a < 10
    → b < 10
    → number_at ((48 + a) ∷ (48 + b) ∷ b'*' ∷ s) ≡ marked (a * 10 + b, b'*' ∷ s)
unfolding number_at more_digits
number_two a b s h k =
    let e : 48 + a - 48 ≡ a = omega arith in
    let f : 48 + b - 48 ≡ b = omega arith in rw (digit a h) rw (digit b k) rw e rw f refl

number_three :
    (a b c : ℕ) (s : Text)
    → a < 10
    → b < 10
    → c < 10
    → number_at ((48 + a) ∷ (48 + b) ∷ (48 + c) ∷ s) ≡ marked ((a * 10 + b) * 10 + c, s)
unfolding number_at more_digits
number_three a b c s h k l =
    let e : 48 + a - 48 ≡ a = omega arith in
    let f : 48 + b - 48 ≡ b = omega arith in
    let g : 48 + c - 48 ≡ c = omega arith in
    rw (digit a h) rw (digit b k) rw (digit c l) rw e rw f rw g refl

digit_white : (d : ℕ) → d < 10 → is_white (48 + d) ≡ false
unfolding is_white
digit_white d h = ground arith

decimal_one : (n : ℕ) → n < 10 → decimal n ≡ (48 + n) ∷ []
unfolding decimal
decimal_one n h = digits_one n n h

decimal_two : (n : ℕ) → 10 ≤ n → n < 100 → decimal n ≡ (48 + n / 10) ∷ (48 + n % 10) ∷ []
unfolding decimal
decimal_two n h k =
    let e : suc n ≡ suc (suc (n - 1)) = omega arith in
    ap (λ f. digits f n) e ∙ digits_two (n - 1) n h k

decimal_three :
    (n : ℕ)
    → 100 ≤ n
    → n < 1000
    → decimal n ≡ (48 + n / 100) ∷ (48 + n / 10 % 10) ∷ (48 + n % 10) ∷ []
unfolding decimal
decimal_three n h k =
    let e : suc n ≡ suc (suc (suc (n - 2))) = omega arith in
    ap (λ f. digits f n) e ∙ digits_three (n - 2) n h k

-- The digits of a number of up to three digits are read as that number.
number-decimal :
    (n : ℕ) (s : Text)
    → n < 1000
    → number_at (skip_white (decimal n ++ b'*' ∷ s)) ≡ marked (n, b'*' ∷ s)
unfolding skip_white
number-decimal n s h = elim (Bool-cases (ltb n 10)) [
  | inl one ↦
      rw (decimal_one n (ground arith)) rw (digit_white n (ground arith))
        (number_one n s (ground arith))
  | inr more ↦ elim (Bool-cases (ltb n 100)) [
    | inl two ↦
        rw (decimal_two n (ground arith) (ground arith)) rw (digit_white (n / 10) (ground arith)) (
          number_two (n / 10) (n % 10) s (ground arith) (omega arith)
          ∙ ap (λ m. marked (m, b'*' ∷ s)) (omega arith))
    | inr three ↦ rw (decimal_three n (ground arith) h) rw (digit_white (n / 100) (omega arith)) (
        number_three (n / 100) (n / 10 % 10) (n % 10) (b'*' ∷ s) (omega arith) (omega arith)
          (omega arith)
        ∙ ap (λ m. marked (m, b'*' ∷ s)) (omega arith))
  ]
]

marked_star :
    (n : ℕ) (fahrenheit : Bool) → marked (n, b'*' ∷ mark fahrenheit ∷ []) ≡ some (n, fahrenheit)
unfolding marked is_white upper
marked_star n true = refl
marked_star n false = refl

-- A number of up to three digits is read off the panel, with its unit.
parse-panel :
    (shown : ℕ) (fahrenheit : Bool)
    → shown < 1000
    → parse_display_brew_temp (panel shown fahrenheit) ≡ some (shown, fahrenheit)
unfolding parse_display_brew_temp panel upper is_white
parse-panel shown fahrenheit h =
    rw (number-decimal shown (mark fahrenheit ∷ []) h) rw (marked_star shown fahrenheit) refl

-- A Celsius temperature whose Fahrenheit value was rounded to a whole number comes back.
back_to_celsius :
    (celsius shown : ℕ)
    → 18 * celsius + 315 ≤ 10 * shown
    → 10 * shown ≤ 18 * celsius + 325
    → machine_to_celsius shown true ≡ pos celsius
unfolding machine_to_celsius nearest
back_to_celsius celsius shown h k =
    let e : (10 * (shown - 32) + 9) / 18 ≡ celsius = omega arith in
    let f : leb 32 shown ≡ true = ground arith in rw f rw e refl

-- The panel's text but for its last character.
front : ℕ → Text
front shown = codes "BREW BOIL. " ++ decimal shown ++ b'*' ∷ []

front-panel :
    (shown : ℕ) (fahrenheit : Bool) → front shown ++ mark fahrenheit ∷ [] ≡ panel shown fahrenheit
unfolding front panel
front-panel shown fahrenheit =
    ap (λ t. codes "BREW BOIL. " ++ t)
      (append_assoc (decimal shown) (b'*' ∷ []) (mark fahrenheit ∷ []))

panel-ascii : (shown : ℕ) → All (λ c. c < 128) (front shown ++ mark true ∷ [])
unfolding front
panel-ascii shown =
    All-append _ (front shown) (mark true ∷ [])
      (All-append _ (codes "BREW BOIL. ") (decimal shown ++ b'*' ∷ []) (omega arith) (
        All-append _ (decimal shown) (b'*' ∷ []) (decimal-All _ shown (λ d h. omega arith))
          (omega arith)))
      (omega arith)

panel_read :
    (shown : ℕ) (s : StateSnapshot)
    → live_bytes display s ≡ map pos (panel shown true)
    → live_text display s ≡ some (panel shown true)
panel_read shown s held =
    live_text-ascii display (front shown) (mark true) s (panel-ascii shown) (λ e. omega arith)
      (λ e. omega arith) (held ∙ ap (map pos) (sym (front-panel shown true)))
    ∙ ap some (front-panel shown true)

-- While the panel shows the brew boiler's temperature in Fahrenheit, rounded to a whole number, the
-- thermostat reports the Celsius temperature, whatever the live register holds.
pub current_c-panel :
    (celsius shown : ℕ) (s : StateSnapshot)
    → shown < 1000
    → 18 * celsius + 315 ≤ 10 * shown
    → 10 * shown ≤ 18 * celsius + 325
    → live_bytes display s ≡ map pos (panel shown true)
    → current_c brew_boiler s ≡ some (pos celsius)
unfolding current_c panel_or_register or_register
current_c-panel celsius shown s h low high held =
    rw (panel_read shown s held) rw (parse-panel shown true h) rw
      (back_to_celsius celsius shown low high) refl
