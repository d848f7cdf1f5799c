-- ===== src/Integration/Entities.antt =====
-- How custom_components/rocket_r60v/entities.py reads values out of a snapshot and turns values into
-- commands: switches, selects, clock times, the built-in timers and the live registers. An encoder
-- gives the address and the bytes to write.
pub mod Codecs
use r60v_home_assistant.Base.{
  ℕ, ◌<◌, Bool, true, false, not, ◌&&◌, Option, none, some, List, [], ◌∷◌, ltb, leb, ◌==◌,
  if◌then◌else◌, get_elem?,
}
use mathlib.Core.Option
use r60v_home_assistant.Base.Int.{ℤ, pos, negsuc}
use r60v_home_assistant.Protocol.Text.{Text, codes}
use r60v_home_assistant.State.Select.{index}
use r60v_home_assistant.Integration.Snapshot.{StateSnapshot, settings_byte, live_bytes, Command}

-- `datetime.time`, as far as the entities use it.
pub record ClockTime : Type 0 where
  pub hour : ℕ
  pub minute : ℕ

-- `datetime.time` holds no other hour or minute.
abbrev pub IsClock : ClockTime → Type 0
IsClock t = (t.hour < 24) × (t.minute < 60)

abbrev pub IsSetting : Option ClockTime → Type 0
IsSetting none = Unit
IsSetting (some t) = IsClock t

first_or_zero : List ℤ → ℤ
first_or_zero [] = pos 0
first_or_zero (b ∷ bytes) = b

-- `_live_byte`
unfoldable pub live_byte : ℕ → StateSnapshot → ℤ
unfolding first_or_zero
live_byte address s = first_or_zero (live_bytes address s)

-- `_bool_on_zero`
unfoldable pub bool_on_zero : ℕ → StateSnapshot → Bool
bool_on_zero address s = settings_byte address s == 0

-- `_bool_on_nonzero`
unfoldable pub bool_on_nonzero : ℕ → StateSnapshot → Bool
bool_on_nonzero address s = not (settings_byte address s == 0)

-- `_enum`; the byte is not negative, so only the upper bound of its test can fail.
unfoldable pub enum : ℕ → List Text → StateSnapshot → Option Text
enum address options s = get_elem? options (settings_byte address s)

clock_of : ℕ → ℕ → Option ClockTime
clock_of hour minute =
    if leb hour 23 && leb minute 59 then some (record { hour = hour; minute = minute }) else none

-- `_time`
unfoldable pub time_at : ℕ → ℕ → StateSnapshot → Option ClockTime
unfolding clock_of
time_at hour_address minute_address s =
    clock_of (settings_byte hour_address s) (settings_byte minute_address s)

-- `_encode_time`
unfoldable pub encode_time : ℕ → ClockTime → Command
encode_time hour_address value = (hour_address, value.hour ∷ value.minute ∷ [])

-- `_encode_bool`
unfoldable pub encode_bool : ℕ → ℕ → ℕ → Bool → Command
encode_bool address on_value off_value value =
    (address, (if value then on_value else off_value) ∷ [])

-- `_encode_enum`; `none` is the `ValueError`.
unfoldable pub encode_enum : ℕ → List Text → Text → Option Command
unfolding index
encode_enum address options option = Option.map (λ i. (address, i ∷ [])) (index options option)

-- What disables a timer, in both of its bytes.
abbrev pub timer_disabled : ℕ
timer_disabled = 100

unfoldable pub timer_time : ℕ → ℕ → StateSnapshot → Option ClockTime
unfolding clock_of
timer_time hour_address minute_address s =
    clock_of (settings_byte hour_address s) (settings_byte minute_address s)

unfoldable pub encode_timer : ℕ → Option ClockTime → Command
encode_timer hour_address none = (hour_address, timer_disabled ∷ timer_disabled ∷ [])
encode_timer hour_address (some value) = (hour_address, value.hour ∷ value.minute ∷ [])

abbrev pub profile_options : List Text
profile_options = codes "A" ∷ codes "B" ∷ codes "C" ∷ []

abbrev pub water_feed_options : List Text
water_feed_options = codes "mains" ∷ codes "tank" ∷ []

abbrev pub temp_unit_options : List Text
temp_unit_options = codes "celsius" ∷ codes "fahrenheit" ∷ []

abbrev pub language_options : List Text
language_options = codes "english" ∷ codes "german" ∷ codes "french" ∷ codes "italian" ∷ []
