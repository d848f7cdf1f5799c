-- ===== src/State/Entities/Echo.antt =====
-- Every writable entity of the registry shows a command that was written.
use r60v_home_assistant.Base.{
  ℕ, zero, suc, ◌+◌, ◌≤◌, ◌<◌, ◌≡◌, ◌≢◌, refl, ap, sym, subst, ◌∙◌, Bool, true, false, Option, none,
  some, List, [], ◌∷◌, ◌++◌, arith, ◌==◌, if◌then◌else◌, length, length-set, get_elem?,
  get_elem?-set_ne, set, All,
}
use mathlib.Core.Option.{some_inj}
use r60v_home_assistant.Base.Int.{pos}
use r60v_home_assistant.Base.Results.{Result, ok, or_fail}
use r60v_home_assistant.Protocol.Text.{Text, codes, upper}
use r60v_home_assistant.Protocol.Address.{
  settings_len, temperature_unit, language, water_feed, active_profile, service_boiler_enable,
  standby, auto_on_hour, auto_off_hour,
}
use r60v_home_assistant.Integration.Profile.{is_white}
use r60v_home_assistant.State.Snapshot.{StateSnapshot, settings_byte, byte_of}
use r60v_home_assistant.State.Select.{
  after, byte-written, index, get_elem?-index, enum, encode_enum, write_of, named, profile_options,
  water_feed_options, temp_unit_options, language_options,
}
use r60v_home_assistant.State.Entities.{
  Value, label, Rejection, value_error, Write, two_digits, time_at, strip, is_truthy, encode_time,
  encode_bool, encode_choice, Entity, on_off, entities, sensor, select, writes_text,
}
use r60v_home_assistant.State.Entities.RoundTrip.{encode_time-printed, encode_time-IsTimeWrite}

-- Once a write that an encoder made of a payload shows in the snapshot, the entity shows a text that
-- its encoder turns into the same write.
abbrev EchoesBy :
    StateSnapshot → (StateSnapshot → Option Value) → Option (Text → Result Rejection Write) → Type 0
EchoesBy s decode none = Unit
EchoesBy s decode (some encode) =
    (payload : Text) (c : Write)
    → encode payload ≡ ok c
    → (t : Text) × (decode (after c s) ≡ some (label t)) × (encode t ≡ ok c)

abbrev Echoes : StateSnapshot → Entity → Type 0
Echoes s e = EchoesBy s e.decode e.encode

byte-elsewhere :
    (i j b : ℕ) (s : StateSnapshot)
    → i ≢ j
    → settings_byte j (record s { settings = set s.settings i (pos b) }) ≡ settings_byte j s
unfolding settings_byte
byte-elsewhere i j b s h = ap byte_of (get_elem?-set_ne s.settings (pos b) h)

time_at-after :
    (a hour minute : ℕ) (s : StateSnapshot)
    → a + 2 ≤ length s.settings
    → hour ≤ 23
    → minute ≤ 59
    → time_at a (a + 1) (after (a, hour ∷ minute ∷ []) s)
      ≡ two_digits hour ++ b':' ∷ two_digits minute
unfolding time_at after
time_at-after a hour minute s inside h m =
    let first : StateSnapshot = record s { settings = set s.settings a (pos hour) } in
    let n = length-set s.settings a (pos hour) in
    let low : settings_byte a (record first { settings = set first.settings (a + 1) (pos minute) })
        ≡ hour =
      byte-elsewhere (a + 1) a minute first (λ e. omega arith)
      ∙ byte-written a hour s (omega arith) (omega arith) in
    let high = byte-written (a + 1) minute first (omega (arith, n)) (omega arith) in
    ap
      (λ b.
        two_digits b
        ++ b':'
          ∷ two_digits (
              settings_byte (a + 1)
                (record first { settings = set first.settings (a + 1) (pos minute) })))
      low
    ∙ ap (λ b. two_digits hour ++ b':' ∷ two_digits b) high

text-Echoes :
    (s : StateSnapshot) (c : Write) (decode : StateSnapshot → Text)
    (encode : Text → Result Rejection Write) (t : Text)
    → decode (after c s) ≡ t
    → encode t ≡ ok c
    → (u : Text) × (some (label (decode (after c s))) ≡ some (label u)) × (encode u ≡ ok c)
text-Echoes s c decode encode t shown back = (t, ap (λ u. some (label u)) shown, back)

times-Echoes :
    (s : StateSnapshot) (key : Text) (a : ℕ)
    → a + 2 ≤ length s.settings
    → Echoes s (writes_text key (time_at a (a + 1)) (encode_time a))
unfolding writes_text
times-Echoes s key a inside payload c h =
    let (hour, minute, same, hours, minutes) = encode_time-IsTimeWrite a payload c h in
    text-Echoes s c (time_at a (a + 1)) (encode_time a)
      (two_digits hour ++ b':' ∷ two_digits minute)
      (ap (λ d. time_at a (a + 1) (after d s)) same
        ∙ time_at-after a hour minute s inside hours minutes)
      (encode_time-printed a hour minute hours minutes ∙ ap ok (sym same))

-- A switch whose two bytes differ.
module _ (s : StateSnapshot) (a on off : ℕ) (decode : StateSnapshot → Text)
    (inside : a < length s.settings)
    (shows : (t : StateSnapshot) (truth : Bool)
      → settings_byte a t ≡ (if truth then on else off)
      → decode t ≡ on_off truth)
    (small : (truth : Bool) → (if truth then on else off) < 256) where
  on_off-back :
      (truth : Bool)
      → encode_bool a on off (on_off truth) ≡ ok (a, (if truth then on else off) ∷ [])
  unfolding encode_bool strip is_white upper is_truthy
  on_off-back true = refl
  on_off-back false = refl

  switched :
      (truth : Bool) (c : Write)
      → (a, (if truth then on else off) ∷ []) ≡ c
      → (t : Text) × (some (label (decode (after c s))) ≡ some (label t))
        × (encode_bool a on off t ≡ ok c)
  unfolding after
  switched truth c same =
      text-Echoes s c decode (encode_bool a on off) (on_off truth)
        (ap (λ d. decode (after d s)) (sym same)
          ∙ shows _ truth (byte-written a (if truth then on else off) s inside (small truth)))
        (on_off-back truth ∙ ap ok same)

  switches-Echoes : (key : Text) → Echoes s (writes_text key decode (encode_bool a on off))
  unfolding writes_text encode_bool
  switches-Echoes key payload c h = switched (is_truthy (upper (strip payload))) c (cc)

pub get_elem?-below {ℓ} :
    {A : Type ℓ} (xs : List A) (i : ℕ) (x : A) → get_elem? xs i ≡ some x → i < length xs
get_elem?-below [] i x h = cc
get_elem?-below (y ∷ xs) zero x h = omega arith
get_elem?-below (y ∷ xs) (suc i) x h = omega (arith, get_elem?-below xs i x h)

module _ (s : StateSnapshot) (a : ℕ) (options : List Text) (inside : a < length s.settings)
    (short : length options ≤ 256) where
  chosen :
      (payload : Text) (found : Option ℕ) (c : Write)
      → index options payload ≡ found
      → or_fail (write_of a found) value_error ≡ ok c
      → enum a options (after c s) ≡ payload
  unfolding enum named after
  chosen payload none c e h = absurd cc
  chosen payload (some i) c e h =
      let same : (a, i ∷ []) ≡ c = cc in
      let here = get_elem?-index options payload i e in
      ap (λ d. enum a options (after d s)) (sym same)
      ∙ (ap (λ b. named (get_elem? options b))
            (byte-written a i s inside (omega (arith, get_elem?-below options i payload here)))
          ∙ ap named here)

  selects-Echoes : (key : Text) → Echoes s (select key a options)
  unfolding select writes_text encode_choice encode_enum
  selects-Echoes key payload c h =
      text-Echoes s c (enum a options) (encode_choice a options) payload
        (chosen payload (index options payload) c refl h) h

-- The registry's switches show their bytes.
power-shown :
    (t : StateSnapshot) (truth : Bool)
    → settings_byte standby t ≡ (if truth then 0 else 1)
    → on_off (settings_byte standby t == 0) ≡ on_off truth
power-shown t true h = rw h refl
power-shown t false h = rw h refl

boiler-shown :
    (t : StateSnapshot) (truth : Bool)
    → settings_byte service_boiler_enable t ≡ (if truth then 1 else 0)
    → (if settings_byte service_boiler_enable t == 0 then codes "OFF" else codes "ON")
      ≡ on_off truth
boiler-shown t true h = rw h refl
boiler-shown t false h = rw h refl

below_256 : (on off : ℕ) → on < 256 → off < 256 → (truth : Bool) → (if truth then on else off) < 256
below_256 on off h k true = h
below_256 on off h k false = k

module _ (s : StateSnapshot) (whole : settings_len ≤ length s.settings) where
  entities-Echoes : All (Echoes s) entities
  unfolding entities sensor writes_text
  entities-Echoes =
      let at_power =
        switches-Echoes s standby 0 1 (λ t. on_off (settings_byte standby t == 0))
          (omega (arith, whole)) power-shown (below_256 0 1 (omega arith) (omega arith))
          (codes "power") in
      let at_boiler =
        switches-Echoes s service_boiler_enable 1 0
          (λ t. if settings_byte service_boiler_enable t == 0 then codes "OFF" else codes "ON")
          (omega (arith, whole)) boiler-shown (below_256 1 0 (omega arith) (omega arith))
          (codes "service_boiler") in
      let at_profile =
        selects-Echoes s active_profile profile_options (omega (arith, whole)) (omega arith)
          (codes "active_profile") in
      let at_water =
        selects-Echoes s water_feed water_feed_options (omega (arith, whole)) (omega arith)
          (codes "water_feed") in
      let at_unit =
        selects-Echoes s temperature_unit temp_unit_options (omega (arith, whole)) (omega arith)
          (codes "temperature_unit") in
      let at_language =
        selects-Echoes s language language_options (omega (arith, whole)) (omega arith)
          (codes "language") in
      let at_on = times-Echoes s (codes "auto_on") auto_on_hour (omega (arith, whole)) in
      let at_off = times-Echoes s (codes "auto_off") auto_off_hour (omega (arith, whole)) in
      (
        tt,
        (
          tt,
          (
            tt,
            (
              at_power,
              (
                at_boiler,
                (at_profile, (at_water, (at_unit, (at_language, (at_on, (at_off, tt)))))),
              ),
            ),
          ),
        ),
      )

All-get_elem? {ℓ} :
    (P : Entity → Type ℓ) (es : List Entity) (k : ℕ) (e : Entity)
    → All P es
    → get_elem? es k ≡ some e
    → P e
All-get_elem? P [] k e h at = cc
All-get_elem? P (d ∷ es) zero e h at = subst P (some_inj.0 at) h.0
All-get_elem? P (d ∷ es) (suc k) e h at = All-get_elem? P es k e h.1 at

echoed :
    (s : StateSnapshot) (decode : StateSnapshot → Option Value)
    (o : Option (Text → Result Rejection Write)) (encode : Text → Result Rejection Write)
    (payload : Text) (c : Write)
    → EchoesBy s decode o
    → o ≡ some encode
    → encode payload ≡ ok c
    → (t : Text) × (decode (after c s) ≡ some (label t)) × (encode t ≡ ok c)
echoed s decode none encode payload c h e k = absurd cc
echoed s decode (some f) encode payload c h e k =
    subst (λ g. EchoesBy s decode (some g)) (some_inj.0 e) h payload c k

-- Whatever write a writable entity of the bridge's registry makes of a payload, once it shows in a
-- whole settings block the entity shows a text that makes the same write again.
pub decode-encode :
    (k : ℕ) (e : Entity) (s : StateSnapshot) (encode : Text → Result Rejection Write)
    (payload : Text) (c : Write)
    → settings_len ≤ length s.settings
    → get_elem? entities k ≡ some e
    → e.encode ≡ some encode
    → encode payload ≡ ok c
    → (t : Text) × (e.decode (after c s) ≡ some (label t)) × (encode t ≡ ok c)
decode-encode k e s encode payload c whole at writable made =
    echoed s e.decode e.encode encode payload c
      (All-get_elem? (Echoes s) entities k e (entities-Echoes s whole) at) writable made
