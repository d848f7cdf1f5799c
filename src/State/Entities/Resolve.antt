-- ===== src/State/Entities/Resolve.antt =====
-- What the registries make of a command of the MQTT channel: `ENTITIES_BY_KEY` and `CLIMATE_BY_KEY`
-- of state.py, and the first half of `_apply_command` of broker.py.
use r60v_home_assistant.Base.{
  ℕ, ◌+◌, ◌≤◌, ◌<◌, ◌≡◌, refl, sym, subst, inl, inr, Bool, true, false, ◌&&◌, Bool-cases, Option,
  none, some, List, [], ◌∷◌, map, arith, leb, if◌then◌else◌, length, All,
}
use r60v_home_assistant.Base.Int.{pos, negsuc}
use r60v_home_assistant.Base.Results.{Result, ok, err, or_fail}
use r60v_home_assistant.Protocol.Text.{Text, upper, text_eq}
use r60v_home_assistant.Protocol.Address.{
  settings_len, brew_boiler_temp, service_boiler_temp, temperature_unit, language, water_feed,
  active_profile, service_boiler_enable, standby, auto_on_hour, auto_off_hour,
}
use r60v_home_assistant.Broker.Command.{Resolution, unknown, rejected, raises, writes_to}
use r60v_home_assistant.Integration.Registry.Bytes.{IsWrite}
use r60v_home_assistant.State.Select.{
  index, get_elem?-index, encode_enum, write_of, profile_options, water_feed_options,
  temp_unit_options, language_options,
}
use r60v_home_assistant.State.Entities.{
  Rejection, value_error, overflow_error, Write, Rounded, whole, infinite, unreadable, strip,
  is_truthy, within, encode_ranged, encode_time, encode_bool, encode_choice, Entity, entities,
  sensor, select, writes_text, ClimateEntity, climate_entities,
}
use r60v_home_assistant.State.Entities.RoundTrip.{encode_time-IsTimeWrite}
use r60v_home_assistant.State.Entities.Echo.{get_elem?-below}

unfoldable pub outcome : Result Rejection Write → Resolution
outcome (ok (address, bytes)) = writes_to (pos address) (map pos bytes)
outcome (err value_error) = rejected
outcome (err overflow_error) = raises

-- The thermostats come after the entities that are writable.
climate_of : List ClimateEntity → Text → Text → Resolution
unfolding outcome
climate_of [] key payload = unknown
climate_of (c ∷ cs) key payload =
    let rest = climate_of cs key payload in
    if text_eq key c.key then outcome (c.encode_target payload) else rest

-- The entity's own encoder, if it has one.
or_else : Option (Text → Result Rejection Write) → Text → Resolution → Resolution
unfolding outcome
or_else none payload other = other
or_else (some encode) payload other = outcome (encode payload)

entity_of : List Entity → Text → Text → Resolution → Resolution
unfolding or_else
entity_of [] key payload other = other
entity_of (e ∷ es) key payload other =
    let rest = entity_of es key payload other in
    if text_eq key e.key then or_else e.encode payload other else rest

unfoldable pub resolve : (Text → Rounded) → Text → Text → Resolution
unfolding entity_of climate_of
resolve round key payload =
    entity_of entities key payload (climate_of (climate_entities round) key payload)

-- A resolution that writes: a write of bytes that lies inside the settings block.
abbrev pub IsSafe : Resolution → Type 0
IsSafe unknown = Unit
IsSafe rejected = Unit
IsSafe raises = Unit
IsSafe (writes_to address bytes) =
    (c : Write) × (address ≡ pos c.0) × (bytes ≡ map pos c.1) × IsWrite c

abbrev EncodesWell : (Text → Result Rejection Write) → Type 0
EncodesWell encode = (payload : Text) (c : Write) → encode payload ≡ ok c → IsWrite c

outcome-IsSafe :
    (r : Result Rejection Write) → ((c : Write) → r ≡ ok c → IsWrite c) → IsSafe (outcome r)
unfolding outcome
outcome-IsSafe (ok c) h = (c, refl, refl, h c refl)
outcome-IsSafe (err value_error) h = tt
outcome-IsSafe (err overflow_error) h = tt

either-IsSafe : (b : Bool) (r t : Resolution) → IsSafe r → IsSafe t → IsSafe (if b then r else t)
either-IsSafe true r t h k = h
either-IsSafe false r t h k = k

climate_of-IsSafe :
    (cs : List ClimateEntity) (key payload : Text)
    → All (λ c. EncodesWell c.encode_target) cs
    → IsSafe (climate_of cs key payload)
unfolding climate_of
climate_of-IsSafe [] key payload h = tt
climate_of-IsSafe (c ∷ cs) key payload h =
    either-IsSafe (text_eq key c.key) (outcome (c.encode_target payload))
      (climate_of cs key payload)
      (outcome-IsSafe (c.encode_target payload) (λ w e. h.0 payload w e))
      (climate_of-IsSafe cs key payload h.1)

abbrev Well : Option (Text → Result Rejection Write) → Type 0
Well none = Unit
Well (some encode) = EncodesWell encode

or_else-IsSafe :
    (o : Option (Text → Result Rejection Write)) (payload : Text) (other : Resolution)
    → Well o
    → IsSafe other
    → IsSafe (or_else o payload other)
unfolding or_else
or_else-IsSafe none payload other h k = k
or_else-IsSafe (some encode) payload other h k =
    outcome-IsSafe (encode payload) (λ w e. h payload w e)

entity_of-IsSafe :
    (es : List Entity) (key payload : Text) (other : Resolution)
    → All (λ e. Well e.encode) es
    → IsSafe other
    → IsSafe (entity_of es key payload other)
unfolding entity_of
entity_of-IsSafe [] key payload other h k = k
entity_of-IsSafe (e ∷ es) key payload other h k =
    either-IsSafe (text_eq key e.key) (or_else e.encode payload other)
      (entity_of es key payload other) (or_else-IsSafe e.encode payload other h.0 k)
      (entity_of-IsSafe es key payload other h.1 k)

one_byte : (a b : ℕ) (c : Write) → a < settings_len → b < 256 → (a, b ∷ []) ≡ c → IsWrite c
one_byte a b c inside small e =
    subst IsWrite e (record { some_byte = omega arith; bytes = (small, tt); inside = omega arith })

within-IsWrite :
    (a lo hi : ℕ) (r : Rounded) (c : Write)
    → a < settings_len
    → hi < 256
    → within a lo hi r ≡ ok c
    → IsWrite c
unfolding within
within-IsWrite a lo hi (whole (pos n)) c inside small h = elim (Bool-cases (leb lo n && leb n hi)) [
  | inl good ↦ one_byte a n c inside (ground arith) (let k = (rw good at h) in cc)
  | inr bad ↦ absurd (let k = (rw bad at h) in cc)
]
within-IsWrite a lo hi (whole (negsuc n)) c inside small h = absurd cc
within-IsWrite a lo hi infinite c inside small h = absurd cc
within-IsWrite a lo hi unreadable c inside small h = absurd cc

ranged-Well :
    (round : Text → Rounded) (a lo hi : ℕ)
    → a < settings_len
    → hi < 256
    → EncodesWell (encode_ranged round a (lo, hi))
unfolding encode_ranged
ranged-Well round a lo hi inside small payload c h =
    within-IsWrite a lo hi (round payload) c inside small h

bool-Well :
    (a on off : ℕ) → a < settings_len → on < 256 → off < 256 → EncodesWell (encode_bool a on off)
unfolding encode_bool
bool-Well a on off inside h k payload c e =
    one_byte a (if is_truthy (upper (strip payload)) then on else off) c inside (ground arith) (cc)

found-IsWrite :
    (a : ℕ) (options : List Text) (payload : Text) (i : Option ℕ) (c : Write)
    → a < settings_len
    → length options ≤ 256
    → index options payload ≡ i
    → or_fail (write_of a i) value_error ≡ ok c
    → IsWrite c
found-IsWrite a options payload none c inside short e h = absurd cc
found-IsWrite a options payload (some i) c inside short e h =
    one_byte a i c inside
      (omega
        (arith, short, get_elem?-below options i payload (get_elem?-index options payload i e)))
      (cc)

choice-Well :
    (a : ℕ) (options : List Text)
    → a < settings_len
    → length options ≤ 256
    → EncodesWell (encode_choice a options)
unfolding encode_choice encode_enum
choice-Well a options inside short payload c h =
    found-IsWrite a options payload (index options payload) c inside short refl h

time-Well : (a : ℕ) → a + 2 ≤ settings_len → EncodesWell (encode_time a)
time-Well a inside payload c h =
    let (hour, minute, same, hours, minutes) = encode_time-IsTimeWrite a payload c h in
    subst IsWrite (sym same) (record {
      some_byte = omega arith;
      bytes = (omega arith, (omega arith, tt));
      inside = omega arith;
    })

entities-Well : All (λ e. Well e.encode) entities
unfolding entities sensor select writes_text
entities-Well =
    let at_power = bool-Well standby 0 1 (omega arith) (omega arith) (omega arith) in
    let at_boiler = bool-Well service_boiler_enable 1 0 (omega arith) (omega arith) (omega arith) in
    let at_profile = choice-Well active_profile profile_options (omega arith) (omega arith) in
    let at_water = choice-Well water_feed water_feed_options (omega arith) (omega arith) in
    let at_unit = choice-Well temperature_unit temp_unit_options (omega arith) (omega arith) in
    let at_language = choice-Well language language_options (omega arith) (omega arith) in
    let at_on = time-Well auto_on_hour (omega arith) in
    let at_off = time-Well auto_off_hour (omega arith) in
    (
      tt,
      (
        tt,
        (
          tt,
          (
            at_power,
            (at_boiler, (at_profile, (at_water, (at_unit, (at_language, (at_on, (at_off, tt))))))),
          ),
        ),
      ),
    )

climates-Well :
    (round : Text → Rounded) → All (λ c. EncodesWell c.encode_target) (climate_entities round)
unfolding climate_entities
climates-Well round = (
  ranged-Well round brew_boiler_temp 85 115 (omega arith) (omega arith),
  (ranged-Well round service_boiler_temp 115 125 (omega arith) (omega arith), tt),
)

-- Whatever key and payload come over MQTT, and however its numbers are read, a command that is not
-- turned down writes one byte at least, bytes only, and inside the settings block.
pub resolve-IsSafe :
    (round : Text → Rounded) (key payload : Text) → IsSafe (resolve round key payload)
unfolding resolve
resolve-IsSafe round key payload =
    entity_of-IsSafe entities key payload (climate_of (climate_entities round) key payload)
      entities-Well (climate_of-IsSafe (climate_entities round) key payload (climates-Well round))
