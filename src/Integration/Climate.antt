-- ===== src/Integration/Climate.antt =====
-- The boilers' thermostats of custom_components/rocket_r60v/entities.py, and the temperature that the
-- front panel shows.
pub mod Panel
pub mod Setpoint
use r60v_home_assistant.Base.{
  ℕ, zero, suc, ◌+◌, ◌-◌, ◌*◌, ◌/◌, Bool, true, false, ◌&&◌, ◌||◌, not, Option, none, some, List,
  [], ◌∷◌, ◌++◌, ltb, leb, ◌==◌, if◌then◌else◌,
}
use mathlib.Core.Option
use r60v_home_assistant.Base.Int.{ℤ, pos, negsuc}
use r60v_home_assistant.Protocol.Text.{Text, codes, text_eq, upper}
use r60v_home_assistant.Protocol.Address.{
  temperature_unit, brew_boiler_temp, service_boiler_temp, service_boiler_enable, standby,
  current_brew_temp, current_service_temp, display, brew_temp_range_c, service_temp_range_c,
}
use r60v_home_assistant.Integration.Snapshot.{StateSnapshot, Command, settings_byte}
use r60v_home_assistant.Integration.Entities.{live_byte}
use r60v_home_assistant.Integration.Profile.{is_white}
use r60v_home_assistant.Integration.Registry.{live_text}

unfoldable pub is_fahrenheit : StateSnapshot → Bool
is_fahrenheit s = settings_byte temperature_unit s == 1

negated : ℕ → ℤ
negated zero = pos 0
negated (suc n) = negsuc n

-- `round(n / 1.8)`, the nearest whole number; no quotient lies halfway between two.
nearest : ℕ → ℕ
nearest n = (10 * n + 9) / 18

-- What the panel shows is not negative.
unfoldable pub machine_to_celsius : ℕ → Bool → ℤ
unfolding negated nearest
machine_to_celsius value fahrenheit =
    if not fahrenheit
    then pos value
    else if leb 32 value
    then pos (nearest (value - 32))
    else negated (nearest (32 - value))

-- `\s*`
skip_white : Text → Text
skip_white [] = []
skip_white (c ∷ s) = let rest = skip_white s in if is_white c then rest else c ∷ s

-- An optional character.
skip_one : ℕ → Text → Text
skip_one x [] = []
skip_one x (c ∷ s) = if c == x then s else c ∷ s

-- A word in either case, at the front: what is behind it.
after_word : Text → Text → Option Text
after_word [] s = some s
after_word (x ∷ word) [] = none
after_word (x ∷ word) (c ∷ s) =
    let rest = after_word word s in if text_eq (upper (c ∷ [])) (x ∷ []) then rest else none

is_digit : ℕ → Bool
is_digit c = leb b'0' c && leb c b'9'

-- Up to so many digits behind those that were read: their number, and what is behind them.
more_digits : ℕ → ℕ → Text → ℕ × Text
unfolding is_digit
more_digits zero value s = (value, s)
more_digits (suc n) value [] = (value, [])
more_digits (suc n) value (c ∷ s) =
    let rest = more_digits n (value * 10 + (c - b'0')) s in
    if is_digit c then rest else (value, c ∷ s)

-- `\s*\*?\s*([CF])` behind the digits: whether it is an F.
unit_of : Text → Option Bool
unit_of [] = none
unit_of (c ∷ s) =
    if text_eq (upper (c ∷ [])) (codes "F")
    then some true
    else if text_eq (upper (c ∷ [])) (codes "C")
    then some false
    else none

marked : ℕ × Text → Option (ℕ × Bool)
unfolding skip_white skip_one unit_of
marked (value, s) =
    Option.map (λ f. (value, f)) (unit_of (skip_white (skip_one b'*' (skip_white s))))

-- `(\d{1,3})` and what follows it. To give a digit back never helps, as no digit can follow there.
number_at : Text → Option (ℕ × Bool)
unfolding more_digits is_digit marked
number_at [] = none
number_at (c ∷ s) = if is_digit c then marked (more_digits 2 (c - b'0') s) else none

behind_boil : Option Text → Option (ℕ × Bool)
unfolding number_at skip_white skip_one
behind_boil none = none
behind_boil (some s) = number_at (skip_white (skip_one b'.' s))

behind_brew : Option Text → Option (ℕ × Bool)
unfolding behind_boil after_word skip_white
behind_brew none = none
behind_brew (some s) = behind_boil (after_word (codes "BOIL") (skip_white s))

first_some : Option (ℕ × Bool) → Option (ℕ × Bool) → Option (ℕ × Bool)
first_some none later = later
first_some (some m) later = some m

-- The search of `_BREW_DISPLAY_RE` in the panel's text.
unfoldable pub parse_display_brew_temp : Text → Option (ℕ × Bool)
unfolding first_some behind_brew after_word
parse_display_brew_temp [] = none
parse_display_brew_temp (c ∷ s) =
    first_some (behind_brew (after_word (codes "BREW") (c ∷ s))) (parse_display_brew_temp s)

pub record R60vClimateDescription : Type 0 where
  pub key : Text
  pub current_address : ℕ
  pub setpoint_address : ℕ
  pub is_on : StateSnapshot → Bool
  pub power_address : ℕ
  pub power_on : ℕ
  pub power_off : ℕ
  pub range_c : ℕ × ℕ
  pub display_current : Bool

or_register : ℕ → StateSnapshot → Option (ℕ × Bool) → ℤ
unfolding live_byte machine_to_celsius
or_register address s none = live_byte address s
or_register address s (some (value, is_f)) = machine_to_celsius value is_f

panel_or_register : ℕ → StateSnapshot → Option Text → Option ℤ
unfolding or_register
panel_or_register address s none = none
panel_or_register address s (some shown) =
    some (or_register address s (parse_display_brew_temp shown))

-- `none` is the `ValueError` of a panel byte that is no byte.
unfoldable pub current_c : R60vClimateDescription → StateSnapshot → Option ℤ
unfolding panel_or_register
current_c d s =
    if d.display_current
    then panel_or_register d.current_address s (live_text display s)
    else some (live_byte d.current_address s)

unfoldable pub target_c : R60vClimateDescription → StateSnapshot → ℕ
target_c d s = settings_byte d.setpoint_address s

in_range : ℕ → ℕ × ℕ → ℤ → Option Command
in_range address (lo, hi) (pos n) = if leb lo n && leb n hi then some (address, n ∷ []) else none
in_range address (lo, hi) (negsuc n) = none

-- `none` is the `ValueError`. The argument is the target as `round(float(celsius))` gives it.
unfoldable pub encode_setpoint : R60vClimateDescription → ℤ → Option Command
unfolding in_range
encode_setpoint d cvalue = in_range d.setpoint_address d.range_c cvalue

unfoldable pub encode_power : R60vClimateDescription → Bool → Command
encode_power d on = (d.power_address, (if on then d.power_on else d.power_off) ∷ [])

unfoldable pub brew_is_on : StateSnapshot → Bool
brew_is_on s = settings_byte standby s == 0

unfoldable pub steam_is_on : StateSnapshot → Bool
steam_is_on s = settings_byte standby s == 0 && not (settings_byte service_boiler_enable s == 0)

abbrev pub brew_boiler : R60vClimateDescription
brew_boiler = record {
  key = codes "brew_boiler";
  current_address = current_brew_temp;
  setpoint_address = brew_boiler_temp;
  is_on = brew_is_on;
  power_address = standby;
  power_on = 0;
  power_off = 1;
  range_c = brew_temp_range_c;
  display_current = true;
}

abbrev pub steam_boiler : R60vClimateDescription
steam_boiler = record {
  key = codes "steam_boiler";
  current_address = current_service_temp;
  setpoint_address = service_boiler_temp;
  is_on = steam_is_on;
  power_address = service_boiler_enable;
  power_on = 1;
  power_off = 0;
  range_c = service_temp_range_c;
  display_current = false;
}

-- `CLIMATE_ENTITIES`
abbrev pub climate_entities : List R60vClimateDescription
climate_entities = brew_boiler ∷ steam_boiler ∷ []
