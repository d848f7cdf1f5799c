-- ===== src/State/Entities.antt =====
-- The registries of state.py: the entities and the boiler thermostats that the MQTT bridge publishes,
-- with how they read the snapshot and what a command's payload writes. What is only shown in Home
-- Assistant (names, units, icons) is left out. Text is ASCII.
pub mod RoundTrip
pub mod Echo
pub mod Resolve
use r60v_home_assistant.Base.{
  ℕ, ◌+◌, ◌-◌, Bool, true, false, ◌&&◌, ◌||◌, Option, none, some, List, [], ◌∷◌, ◌++◌, ◌==◌, leb,
  if◌then◌else◌, length, replicate,
}
use mathlib.Core.Option
use r60v_home_assistant.Base.Int.{ℤ, pos}
use r60v_home_assistant.Base.Results.{Result, ok, err, or_fail}
use r60v_home_assistant.Protocol.Text.{Text, codes, text_eq, upper}
use r60v_home_assistant.Protocol.Address.{
  temperature_unit, language, brew_boiler_temp, service_boiler_temp, water_feed, active_profile,
  service_boiler_enable, standby, total_coffee_count, auto_on_hour, auto_on_minute, auto_off_hour,
  auto_off_minute, current_brew_temp, current_service_temp, current_pressure, display,
  brew_temp_range_c, service_temp_range_c,
}
use r60v_home_assistant.State.Snapshot.{StateSnapshot, settings_byte, live_bytes, le16}
use r60v_home_assistant.State.Select.{
  enum, encode_enum, profile_options, water_feed_options, temp_unit_options, language_options,
}
use r60v_home_assistant.Integration.Profile.{decimal, is_white, parts}
use r60v_home_assistant.Integration.Stream.Keys.{int_dec}
use r60v_home_assistant.Integration.Registry.{ascii, rstrip}

-- A decoded value: an integer, a number of tenths, or a text.
pub data Value : Type 0 where
  number : ℕ → Value
  signed : ℤ → Value
  tenths : ℤ → Value
  label : Text → Value

-- What an encoder raises: a `ValueError`, or the `OverflowError` of rounding an infinity.
pub data Rejection : Type 0 where
  value_error overflow_error : Rejection

-- The address and the bytes of a write.
abbrev pub Write : Type 0
Write = ℕ × List ℕ

-- What `float` makes of a payload, rounded: an integer, an infinity, or a `ValueError` (a NaN too).
pub data Rounded : Type 0 where
  whole : ℤ → Rounded
  infinite unreadable : Rounded

first_or_zero : List ℤ → ℤ
first_or_zero [] = pos 0
first_or_zero (b ∷ bytes) = b

-- `_live_byte`, and `_live_decibar` in tenths.
unfoldable pub live_byte : ℕ → StateSnapshot → ℤ
unfolding first_or_zero
live_byte address s = first_or_zero (live_bytes address s)

-- `_live_text`; `none` is the `ValueError` of `bytes`.
unfoldable pub live_text : ℕ → StateSnapshot → Option Text
live_text address s = Option.map rstrip (ascii (live_bytes address s))

-- `f"{n:02d}"`
unfoldable pub two_digits : ℕ → Text
two_digits n = replicate (2 - length (decimal n)) b'0' ++ decimal n

-- `_time`
unfoldable pub time_at : ℕ → ℕ → StateSnapshot → Text
unfolding two_digits
time_at hour_address minute_address s =
    two_digits (settings_byte hour_address s) ++ b':' ∷ two_digits (settings_byte minute_address s)

-- `payload.strip()`
unfoldable pub strip_front : Text → Text
strip_front [] = []
strip_front (c ∷ s) = let rest = strip_front s in if is_white c then rest else c ∷ s

onto_stripped : ℕ → Text → Text
onto_stripped c [] = if is_white c then [] else c ∷ []
onto_stripped c (d ∷ s) = c ∷ d ∷ s

unfoldable pub strip_end : Text → Text
unfolding onto_stripped
strip_end [] = []
strip_end (c ∷ s) = onto_stripped c (strip_end s)

unfoldable pub strip : Text → Text
unfolding strip_front strip_end
strip s = strip_front (strip_end s)

within : ℕ → ℕ → ℕ → Rounded → Result Rejection Write
within address lo hi (whole (pos n)) =
    if leb lo n && leb n hi then ok (address, n ∷ []) else err value_error
within address lo hi (whole n) = err value_error
within address lo hi infinite = err overflow_error
within address lo hi unreadable = err value_error

-- `_encode_ranged`
unfoldable pub encode_ranged : (Text → Rounded) → ℕ → ℕ × ℕ → Text → Result Rejection Write
unfolding within
encode_ranged round address (lo, hi) payload = within address lo hi (round payload)

in_day : ℕ → Option ℤ → Option ℤ → Result Rejection Write
in_day address (some (pos hour)) (some (pos minute)) =
    if leb hour 23 && leb minute 59 then ok (address, hour ∷ minute ∷ []) else err value_error
in_day address _ _ = err value_error

time_of : ℕ → List Text → Result Rejection Write
unfolding in_day int_dec
time_of address (a ∷ b ∷ []) = in_day address (int_dec a) (int_dec b)
time_of address _ = err value_error

-- `_encode_time`
unfoldable pub encode_time : ℕ → Text → Result Rejection Write
unfolding time_of strip
encode_time hour_address payload = time_of hour_address (parts (strip payload))

is_truthy : Text → Bool
is_truthy s = text_eq s (codes "ON") || text_eq s (codes "1") || text_eq s (codes "TRUE")

-- `_encode_bool`
unfoldable pub encode_bool : ℕ → ℕ → ℕ → Text → Result Rejection Write
unfolding is_truthy strip
encode_bool address on_value off_value payload =
    ok (address, (if is_truthy (upper (strip payload)) then on_value else off_value) ∷ [])

-- `_encode_enum`
encode_choice : ℕ → List Text → Text → Result Rejection Write
encode_choice address options payload = or_fail (encode_enum address options payload) value_error

-- `decode` gives `none` where it raises; `encode` is there for the writable entities.
pub record Entity : Type 0 where
  pub key : Text
  pub decode : StateSnapshot → Option Value
  pub encode : Option (Text → Result Rejection Write)

sensor : Text → (StateSnapshot → Option Value) → Entity
sensor key decode = record { key = key; decode = decode; encode = none }

writes_text : Text → (StateSnapshot → Text) → (Text → Result Rejection Write) → Entity
writes_text key decode encode = record {
  key = key;
  decode = λ s. some (label (decode s));
  encode = some encode;
}

abbrev pub on_off : Bool → Text
on_off true = codes "ON"
on_off false = codes "OFF"

select : Text → ℕ → List Text → Entity
unfolding writes_text encode_choice
select key address options = writes_text key (enum address options) (encode_choice address options)

-- `ENTITIES`
unfoldable pub entities : List Entity
unfolding sensor select writes_text
entities =
    sensor (codes "current_pressure") (λ s. some (tenths (live_byte current_pressure s)))
    ∷ sensor (codes "display") (λ s. Option.map label (live_text display s))
    ∷ sensor (codes "total_coffee_count")
        (λ s. Option.map number (le16 s.settings total_coffee_count))
    ∷ writes_text (codes "power") (λ s. on_off (settings_byte standby s == 0))
        (encode_bool standby 0 1)
    ∷ writes_text (codes "service_boiler")
        (λ s. if settings_byte service_boiler_enable s == 0 then codes "OFF" else codes "ON")
        (encode_bool service_boiler_enable 1 0)
    ∷ select (codes "active_profile") active_profile profile_options
    ∷ select (codes "water_feed") water_feed water_feed_options
    ∷ select (codes "temperature_unit") temperature_unit temp_unit_options
    ∷ select (codes "language") language language_options
    ∷ writes_text (codes "auto_on") (time_at auto_on_hour auto_on_minute) (encode_time auto_on_hour)
    ∷ writes_text (codes "auto_off") (time_at auto_off_hour auto_off_minute)
        (encode_time auto_off_hour)
    ∷ []

pub record ClimateEntity : Type 0 where
  pub key : Text
  pub current : StateSnapshot → Value
  pub target : StateSnapshot → Value
  pub encode_target : Text → Result Rejection Write

-- `CLIMATE_ENTITIES`, where `round` is what `round(float(payload))` gives.
unfoldable pub climate_entities : (Text → Rounded) → List ClimateEntity
climate_entities round =
    record {
      key = codes "brew_boiler";
      current = λ s. signed (live_byte current_brew_temp s);
      target = λ s. number (settings_byte brew_boiler_temp s);
      encode_target = encode_ranged round brew_boiler_temp brew_temp_range_c;
    }
    ∷ record {
      key = codes "steam_boiler";
      current = λ s. signed (live_byte current_service_temp s);
      target = λ s. number (settings_byte service_boiler_temp s);
      encode_target = encode_ranged round service_boiler_temp service_temp_range_c;
    }
    ∷ []
