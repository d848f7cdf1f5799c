-- ===== src/Integration/Registry.antt =====
-- The registry of custom_components/rocket_r60v/entities.py: every entity but the thermostats, with
-- how it reads the snapshot and what a command to it writes. What is only shown (names, units,
-- icons) is left out.
pub mod RoundTrip
pub mod LiveText
pub mod Bytes
use r60v_home_assistant.Base.{
  ℕ, ◌+◌, Bool, true, false, Option, none, some, List, [], ◌∷◌, ◌==◌, if◌then◌else◌, ltb,
}
use mathlib.Core.Option
use r60v_home_assistant.Base.Int.{ℤ, pos, negsuc}
use r60v_home_assistant.Base.Results.{Result, ok, err, ◌>>=◌}
use r60v_home_assistant.Protocol.Text.{Text, codes, text_eq}
use r60v_home_assistant.Protocol.Address.{
  temperature_unit, language, profile_a, profile_b, profile_c, water_feed, active_profile,
  service_boiler_enable, standby, total_coffee_count, auto_on_hour, auto_on_minute, auto_off_hour,
  auto_off_minute, current_pressure, display,
}
use r60v_home_assistant.Integration.Snapshot.{
  StateSnapshot, Command, settings_block, live_bytes, le16,
}
use r60v_home_assistant.Integration.Entities.{
  ClockTime, live_byte, bool_on_zero, bool_on_nonzero, enum, time_at, encode_time, encode_bool,
  encode_enum, profile_options, water_feed_options, temp_unit_options, language_options,
}
use r60v_home_assistant.Integration.Profile.{
  Reading, ProfileError, profile_len, decode_profile, encode_profile,
}

-- One byte of `bytes(data).decode("ascii", "replace")`; `none` is the `ValueError` of `bytes`.
ascii_char : ℤ → Option ℕ
ascii_char (pos n) = if ltb n 128 then some n else if ltb n 256 then some 0xFFFD else none
ascii_char (negsuc n) = none

unfoldable pub ascii : List ℤ → Option Text
unfolding ascii_char
ascii [] = some []
ascii (b ∷ bytes) =
    let rest = ascii bytes in elim (ascii_char b) [ none ↦ none | some c ↦ Option.map (◌∷◌ c) rest ]

-- `rstrip(" \x00")`
trimmed : ℕ → Text → Text
trimmed c [] = if c == 32 then [] else if c == 0 then [] else c ∷ []
trimmed c (d ∷ s) = c ∷ d ∷ s

unfoldable pub rstrip : Text → Text
unfolding trimmed
rstrip [] = []
rstrip (c ∷ s) = trimmed c (rstrip s)

-- `_live_text`
unfoldable pub live_text : ℕ → StateSnapshot → Option Text
unfolding ascii rstrip
live_text address s = Option.map rstrip (ascii (live_bytes address s))

-- `_decode_profile_at`
unfoldable pub decode_profile_at : ℕ → StateSnapshot → Option Text
decode_profile_at address s = decode_profile (settings_block address profile_len s)

-- `_encode_profile_at`
unfoldable pub encode_profile_at : (Text → Reading) → ℕ → Text → Result ProfileError Command
encode_profile_at number address text = do block ← encode_profile number text; ok (address, block)

-- An entity by its platform: `decode`, and `encode` where it is writable. A sensor shows a number, a
-- number of tenths or a text.
pub data Access : Type 0 where
  counts : (StateSnapshot → ℕ) → Access
  measures_tenths : (StateSnapshot → ℤ) → Access
  shows : (StateSnapshot → Option Text) → Access
  switches : (StateSnapshot → Bool) → (Bool → Command) → Access
  selects : List Text → (StateSnapshot → Option Text) → (Text → Option Command) → Access
  times : (StateSnapshot → Option ClockTime) → (ClockTime → Command) → Access
  texts : (StateSnapshot → Option Text) → (Text → Result ProfileError Command) → Access

-- The values of the writable entities: of a switch, of a select or a text, of a time picker.
pub data Value : Type 0 where
  flag : Bool → Value
  label : Text → Value
  clock : ClockTime → Value

command_of : {A : Type 0} → Result A Command → Option Command
command_of (ok c) = some c
command_of (err e) = none

-- What the entity shows of a snapshot, if it is writable and shows something.
unfoldable pub shown : Access → StateSnapshot → Option Value
shown (switches decode encode) s = some (flag (decode s))
shown (selects options decode encode) s = Option.map label (decode s)
shown (times decode encode) s = Option.map clock (decode s)
shown (texts decode encode) s = Option.map label (decode s)
shown _ s = none

-- The command of a value; `none` is the `ValueError`, and stands for a value of another kind, which
-- its platform never passes.
unfoldable pub command_for : Access → Value → Option Command
unfolding command_of
command_for (switches decode encode) (flag value) = some (encode value)
command_for (selects options decode encode) (label option) = encode option
command_for (times decode encode) (clock t) = some (encode t)
command_for (texts decode encode) (label text) = command_of (encode text)
command_for _ _ = none

pub record R60vEntityDescription : Type 0 where
  pub key : Text
  pub access : Access

entity : Text → Access → R60vEntityDescription
entity key access = record { key = key; access = access }

select_at : ℕ → List Text → Access
select_at address options = selects options (enum address options) (encode_enum address options)

profile_at : (Text → Reading) → ℕ → Access
profile_at number address = texts (decode_profile_at address) (encode_profile_at number address)

-- `ENTITIES`, where `number` is what `round(float(text), 1)` gives.
unfoldable pub entities : (Text → Reading) → List R60vEntityDescription
unfolding entity select_at profile_at
entities number =
    entity (codes "current_pressure") (measures_tenths (live_byte current_pressure))
    ∷ entity (codes "display") (shows (live_text display))
    ∷ entity (codes "total_coffee_count") (counts (λ s. le16 s.settings total_coffee_count))
    ∷ entity (codes "power") (switches (bool_on_zero standby) (encode_bool standby 0 1))
    ∷ entity (codes "service_boiler")
        (switches (bool_on_nonzero service_boiler_enable) (encode_bool service_boiler_enable 1 0))
    ∷ entity (codes "active_profile") (select_at active_profile profile_options)
    ∷ entity (codes "water_feed") (select_at water_feed water_feed_options)
    ∷ entity (codes "temperature_unit") (select_at temperature_unit temp_unit_options)
    ∷ entity (codes "language") (select_at language language_options)
    ∷ entity (codes "auto_on")
        (times (time_at auto_on_hour auto_on_minute) (encode_time auto_on_hour))
    ∷ entity (codes "auto_off")
        (times (time_at auto_off_hour auto_off_minute) (encode_time auto_off_hour))
    ∷ entity (codes "profile_a") (profile_at number profile_a)
    ∷ entity (codes "profile_b") (profile_at number profile_b)
    ∷ entity (codes "profile_c") (profile_at number profile_c)
    ∷ []

-- `writable`
unfoldable pub writable : R60vEntityDescription → Bool
writable e = elim (e.access) [
  | counts _ ↦ false
  | measures_tenths _ ↦ false
  | shows _ ↦ false
  | _ ↦ true
]
