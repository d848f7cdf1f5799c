-- ===== src/Tests/State.antt =====
-- The registries of bridge/r60v_broker/state.py at concrete commands.
use r60v_home_assistant.Base.{◌≡◌, refl, some, none, [], ◌∷◌, arith, if◌then◌else◌}
use r60v_home_assistant.Base.Int.{pos}
use r60v_home_assistant.Base.Results.{ok, err}
use r60v_home_assistant.Protocol.Text.{Text, codes, upper, text_eq}
use r60v_home_assistant.Protocol.Address.{temperature_unit, language, water_feed, active_profile}
use r60v_home_assistant.State.Select.{
  profile_options, water_feed_options, temp_unit_options, language_options, index, encode_enum,
}
use r60v_home_assistant.Protocol.Hex.{strip_spaces}
use r60v_home_assistant.Broker.Command.{writes_to, rejected, raises, unknown}
use r60v_home_assistant.Integration.Profile.{is_white, parts}
use r60v_home_assistant.Integration.Stream.Keys.{int_dec}
use r60v_home_assistant.State.Snapshot.{blank}
use r60v_home_assistant.State.Select.{after}
use r60v_home_assistant.State.Entities.{
  label, value_error, Rounded, whole, infinite, unreadable, strip, encode_time, encode_bool,
  encode_ranged, entities, climate_entities, Entity, time_at,
}
use r60v_home_assistant.State.Entities.Echo.{decode-encode}
use r60v_home_assistant.State.Entities.Resolve.{resolve, IsSafe, resolve-IsSafe}

-- A name that is no option, and one that is.
no_such_profile : encode_enum active_profile profile_options (codes "D") ≡ none
unfolding encode_enum index
no_such_profile = refl

german_selected : encode_enum language language_options (codes "german") ≡ some (0x01, 1 ∷ [])
unfolding encode_enum index
german_selected = refl

fahrenheit_selected :
    encode_enum temperature_unit temp_unit_options (codes "fahrenheit") ≡ some (0x00, 1 ∷ [])
unfolding encode_enum index
fahrenheit_selected = refl

tank_selected : encode_enum water_feed water_feed_options (codes "tank") ≡ some (0x46, 1 ∷ [])
unfolding encode_enum index
tank_selected = refl

-- A reader of the number 105 and of the infinity.
round_105 : Text → Rounded
round_105 s =
    if text_eq s (codes "105")
    then whole (pos 105)
    else if text_eq s (codes "inf")
    then infinite
    else unreadable

abbrev auto_on : Entity
auto_on = record {
  key = codes "auto_on";
  decode = λ s. some (label (time_at 0x51 0x52 s));
  encode = some (encode_time 0x51);
}

half_past_six : encode_time 0x51 (codes " 6:30") ≡ ok (0x51, 6 ∷ 30 ∷ [])
unfolding encode_time strip is_white parts int_dec strip_spaces
half_past_six = refl

late : encode_time 0x51 (codes "24:00") ≡ err value_error
unfolding encode_time strip is_white parts int_dec strip_spaces
late = refl

decode-encode_example :
    (t : Text) × (auto_on.decode (after (0x51, 6 ∷ 30 ∷ []) blank) ≡ some (label t))
    × (encode_time 0x51 t ≡ ok (0x51, 6 ∷ 30 ∷ []))
unfolding entities
decode-encode_example =
    decode-encode 9 auto_on blank (encode_time 0x51) (codes " 6:30") (0x51, 6 ∷ 30 ∷ [])
      (omega arith) refl refl half_past_six

setpoint_resolved :
    resolve round_105 (codes "brew_boiler") (codes "105") ≡ writes_to (pos 0x02) (pos 105 ∷ [])
unfolding resolve entities climate_entities encode_ranged round_105
setpoint_resolved = refl

power_resolved : resolve round_105 (codes "power") (codes "on ") ≡ writes_to (pos 0x4A) (pos 0 ∷ [])
unfolding resolve entities climate_entities encode_bool strip is_white upper
power_resolved = refl

sensor_refused : resolve round_105 (codes "display") (codes "105") ≡ unknown
unfolding resolve entities climate_entities
sensor_refused = refl

cold_refused : resolve round_105 (codes "steam_boiler") (codes "105") ≡ rejected
unfolding resolve entities climate_entities encode_ranged round_105
cold_refused = refl

-- The `OverflowError` is not caught.
infinity_raises : resolve round_105 (codes "brew_boiler") (codes "inf") ≡ raises
unfolding resolve entities climate_entities encode_ranged round_105
infinity_raises = refl

resolve-IsSafe_example : IsSafe (resolve round_105 (codes "brew_boiler") (codes "105"))
resolve-IsSafe_example = resolve-IsSafe round_105 (codes "brew_boiler") (codes "105")
