-- ===== src/Tests/Entities.antt =====
-- The entities of custom_components/rocket_r60v/entities.py at concrete snapshots and commands.
use r60v_home_assistant.Base.{
  ltb, Bool-cases, inl, inr, ℕ, suc, zero, ◌+◌, ◌-◌, ◌*◌, ◌≤◌, ◌<◌, ◌≡◌, refl, ◌⊎◌, Bool, true,
  false, ◌&&◌, some, none, List, [], ◌∷◌, arith, map, ◌==◌, leb, if◌then◌else◌,
}
use r60v_home_assistant.Base.Int.{pos, negsuc}
use r60v_home_assistant.Base.Results.{ok, err}
use r60v_home_assistant.Protocol.Text.{Text, codes, upper}
use r60v_home_assistant.Protocol.Address.{display, auto_on_hour, auto_on_minute}
use r60v_home_assistant.Integration.Snapshot.{StateSnapshot, blank, live_bytes}
use r60v_home_assistant.Base.Dict
use r60v_home_assistant.Integration.Entities.{ClockTime, time_at, encode_time}
use r60v_home_assistant.Integration.Profile.{
  Reading, tenths, not_finite, unreadable, decimal, fmt_num, decode_profile, encode_profile, parts,
  is_white, words, time_out_of_range, not_a_pair,
}
use r60v_home_assistant.Integration.Profile.Blocks.{IsProfile, encode_profile-IsProfile}
use r60v_home_assistant.Integration.Profile.RoundTrip.{encode_profile-decode_profile}
use r60v_home_assistant.Integration.Registry.{
  clock, command_for, entities, Access, R60vEntityDescription,
}
use r60v_home_assistant.Integration.Registry.RoundTrip.{Echo, shown-command_for}
use r60v_home_assistant.Integration.Climate.{
  brew_boiler, current_c, encode_setpoint, parse_display_brew_temp,
}
use r60v_home_assistant.Integration.Climate.Panel.{panel, current_c-panel}
use r60v_home_assistant.Integration.Climate.Setpoint.{Inside, Outside, Taken, encode_setpoint_lem}

-- A reader of decimals such as `12` and `3.5`, which stands for `round(float(text), 1)`.
is_digit : ℕ → Bool
is_digit c = leb b'0' c && leb c b'9'

tenth : ℕ → Text → Reading
unfolding is_digit
tenth n (d ∷ []) = if is_digit d then tenths (pos (n * 10 + (d - b'0'))) else unreadable
tenth n _ = unreadable

value_of : ℕ → Text → Reading
unfolding tenth is_digit
value_of n [] = tenths (pos (n * 10))
value_of n (c ∷ s) =
    let rest = value_of (n * 10 + (c - b'0')) s in
    if c == b'.' then tenth n s else if is_digit c then rest else unreadable

read_decimal : Text → Reading
unfolding value_of
read_decimal [] = unreadable
read_decimal (c ∷ s) = value_of 0 (c ∷ s)

is_tenths : ℕ → Reading → Bool
is_tenths n (tenths (pos m)) = m == n
is_tenths n _ = false

is_tenths_sound : (n : ℕ) (r : Reading) → is_tenths n r ≡ true → r ≡ tenths (pos n)
unfolding is_tenths
is_tenths_sound n (tenths (pos m)) h = ground arith
is_tenths_sound n (tenths (negsuc m)) h = cc
is_tenths_sound n not_finite h = cc
is_tenths_sound n unreadable h = cc

reads_back : ℕ → Bool
unfolding is_tenths read_decimal
reads_back m = is_tenths m (read_decimal (fmt_num m))

-- Whether every number of tenths below the bound is read back.
table : ℕ → Bool
unfolding reads_back
table zero = true
table (suc bound) = table bound && reads_back bound

table_entry : (bound m : ℕ) → m < bound → table bound ≡ true → reads_back m ≡ true
unfolding table
table_entry zero m below whole = absurd (omega arith)
table_entry (suc bound) m below whole = elim (Bool-cases (ltb m bound)) [
  | inl earlier ↦ table_entry bound m (ground arith) (ground arith)
  | inr last ↦ let e : m ≡ bound = ground arith in rw e (ground arith)
]

sixty : table 601 ≡ true
unfolding table fmt_num
sixty = refl

reads_printed : (n : ℕ) → n ≤ 600 → read_decimal (fmt_num n) ≡ tenths (pos n)
unfolding reads_back
reads_printed n h =
    is_tenths_sound n (read_decimal (fmt_num n)) (table_entry 601 n (omega arith) sixty)

-- The profile of the comment on `encode_profile`, and two that are refused.
abbrev block : List ℕ
block = 30 ∷ 0 ∷ 60 ∷ 0 ∷ 250 ∷ 0 ∷ 0 ∷ 0 ∷ 0 ∷ 0 ∷ 30 ∷ 60 ∷ 90 ∷ 90 ∷ 60 ∷ []

encodes_profile : encode_profile read_decimal (codes "3:3  6:6 25:9 0:9 0:6") ≡ ok block
unfolding encode_profile is_white words parts read_decimal
encodes_profile = refl

decodes_profile : decode_profile block ≡ some (codes "3:3 6:6 25:9 0:9 0:6")
unfolding decode_profile
decodes_profile = refl

too_long : encode_profile read_decimal (codes "60.1:3") ≡ err time_out_of_range
unfolding encode_profile is_white words parts read_decimal
too_long = refl

no_pressure : encode_profile read_decimal (codes "3:3 6") ≡ err not_a_pair
unfolding encode_profile is_white words parts read_decimal
no_pressure = refl

block-IsProfile : IsProfile block
block-IsProfile =
    encode_profile-IsProfile read_decimal (codes "3:3  6:6 25:9 0:9 0:6") block encodes_profile

encode_profile-decode_profile_example :
    (text : Text) × (decode_profile block ≡ some text)
    × (encode_profile read_decimal text ≡ ok block)
encode_profile-decode_profile_example =
    encode_profile-decode_profile read_decimal reads_printed block block-IsProfile

-- Auto-on at half past six, and disabled.
abbrev half_past_six : ClockTime
half_past_six = record { hour = 6; minute = 30 }

abbrev auto_on : R60vEntityDescription
auto_on = record {
  key = codes "auto_on";
  access = Access.times (time_at auto_on_hour auto_on_minute) (encode_time auto_on_hour);
}

shown-command_for_example : Echo auto_on.access (clock half_past_six) (0x51, 6 ∷ 30 ∷ []) blank
unfolding entities command_for encode_time
shown-command_for_example =
    shown-command_for read_decimal reads_printed 9 auto_on (clock half_past_six) (0x51, 6 ∷ 30 ∷ [])
      blank (omega arith) refl (omega arith, omega arith) refl

-- The panel of the comment: 221 degrees Fahrenheit are 105 degrees Celsius.
abbrev hot : StateSnapshot
hot = record blank { live = (display, map pos (codes "BREW BOIL. 221*F")) ∷ [] }

on_standby : parse_display_brew_temp (codes "BREW BOIL. ECO*") ≡ none
unfolding parse_display_brew_temp is_white upper
on_standby = refl

current_c-panel_example : current_c brew_boiler hot ≡ some (pos 105)
current_c-panel_example =
    current_c-panel 105 221 hot (omega arith) (omega arith) (omega arith)
      (unfold live_bytes panel decimal Dict.get in refl)

encode_setpoint_lem_example :
    (Inside (85, 115) (pos 93) × Taken brew_boiler (pos 93) blank)
    ⊎ (Outside (85, 115) (pos 93) × (encode_setpoint brew_boiler (pos 93) ≡ none))
encode_setpoint_lem_example = encode_setpoint_lem 0 brew_boiler (pos 93) blank refl (omega arith)
