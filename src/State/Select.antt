-- ===== src/State/Select.antt =====
-- The entities of state.py that pick one of a list of names: `_enum` and `_encode_enum`, with the
-- lists of options. The bytes are those of the write that a command turns into.
use mathlib.Core.Option
use mathlib.Core.Option.{some_inj}
use r60v_home_assistant.Base.{
  ℕ, zero, suc, ◌+◌, ◌≡◌, ◌≤◌, ◌<◌, refl, ap, subst, ◌∙◌, inl, inr, true, Option, none, some, List,
  [], ◌∷◌, arith, length, get_elem?, get_elem?-set_self, set, if◌then◌else◌, Bool-cases,
}
use r60v_home_assistant.Base.Int.{pos, low_byte}
use r60v_home_assistant.Protocol.Text.{Text, codes, text_eq}
use r60v_home_assistant.Protocol.Frame.Pieces.{text_eq_refl, text_eq_sound}
use r60v_home_assistant.State.Snapshot.{StateSnapshot, settings_byte, settings_byte-found}

abbrev pub profile_options : List Text
profile_options = codes "A" ∷ codes "B" ∷ codes "C" ∷ []

abbrev pub water_feed_options : List Text
water_feed_options = codes "mains" ∷ codes "tank" ∷ []

abbrev pub temp_unit_options : List Text
temp_unit_options = codes "celsius" ∷ codes "fahrenheit" ∷ []

abbrev pub language_options : List Text
language_options = codes "english" ∷ codes "german" ∷ codes "french" ∷ codes "italian" ∷ []

-- `options.index(payload)`; `none` is the `ValueError`.
unfoldable pub index : List Text → Text → Option ℕ
index [] payload = none
index (option ∷ options) payload =
    if text_eq option payload then some 0 else Option.map suc (index options payload)

abbrev pub write_of : ℕ → Option ℕ → Option (ℕ × List ℕ)
write_of address none = none
write_of address (some i) = some (address, i ∷ [])

-- The address and the bytes to write; `none` is the `ValueError`.
unfoldable pub encode_enum : ℕ → List Text → Text → Option (ℕ × List ℕ)
encode_enum address options payload = write_of address (index options payload)

unfoldable pub named : Option Text → Text
named none = codes "unknown"
named (some option) = option

-- The byte is not negative, so only the upper bound of the source's test can fail.
unfoldable pub enum : ℕ → List Text → StateSnapshot → Text
unfolding named
enum address options s = named (get_elem? options (settings_byte address s))

-- The snapshot in which the bytes of a write show.
unfoldable pub after : ℕ × List ℕ → StateSnapshot → StateSnapshot
after (address, []) s = s
after (address, b ∷ bytes) s =
    after (address + 1, bytes) (record s { settings = set s.settings address (pos b) })

-- The option at an index that was found.
IsIndex : List Text → Text → Option ℕ → Type 0
IsIndex options payload none = ⊥
IsIndex options payload (some i) = (i < length options) × (get_elem? options i ≡ some payload)

IsIndex-suc :
    (option : Text) (options : List Text) (payload : Text) (i : Option ℕ)
    → IsIndex options payload i
    → IsIndex (option ∷ options) payload (Option.map suc i)
unfolding IsIndex
IsIndex-suc option options payload none h = h
IsIndex-suc option options payload (some i) h = (omega (arith, h.0), h.1)

text_eq-of : {s t : Text} → s ≡ t → text_eq s t ≡ true
text_eq-of {s} e = subst (λ t. text_eq s t ≡ true) e (text_eq_refl s)

-- An option is found.
index-IsIndex :
    (options : List Text) (payload : Text) (k : ℕ)
    → get_elem? options k ≡ some payload
    → IsIndex options payload (index options payload)
unfolding index IsIndex
index-IsIndex [] payload k h = cc
index-IsIndex (option ∷ options) payload zero h = rw (text_eq-of (some_inj.0 h)) (omega arith, h)
index-IsIndex (option ∷ options) payload (suc k) h = elim (Bool-cases (text_eq option payload)) [
  | inl same ↦ rw same (omega arith, ap some (text_eq_sound option payload same))
  | inr other ↦ rw other (
      IsIndex-suc option options payload (index options payload)
        (index-IsIndex options payload k h))
]

behind :
    (option : Text) (options : List Text) (payload : Text) (i : ℕ) (found : Option ℕ)
    → ((j : ℕ) → found ≡ some j → get_elem? options j ≡ some payload)
    → Option.map suc found ≡ some i
    → get_elem? (option ∷ options) i ≡ some payload
behind option options payload i none here h = cc
behind option options payload zero (some j) here h = cc
behind option options payload (suc i) (some j) here h = here i (cc)

-- What is found at an index stands there.
pub get_elem?-index :
    (options : List Text) (payload : Text) (i : ℕ)
    → index options payload ≡ some i
    → get_elem? options i ≡ some payload
unfolding index
get_elem?-index [] payload i h = cc
get_elem?-index (option ∷ options) payload i h = elim (Bool-cases (text_eq option payload)) [
  | inl same ↦
      let here : i ≡ 0 = ground arith in rw here (ap some (text_eq_sound option payload same))
  | inr other ↦
      behind option options payload i (index options payload)
        (λ j. get_elem?-index options payload j) (rw other at h)
]

found-of :
    (options : List Text) (payload : Text) (i : Option ℕ)
    → IsIndex options payload i
    → (j : ℕ) × (i ≡ some j) × (j < length options) × (get_elem? options j ≡ some payload)
unfolding IsIndex
found-of options payload none h = absurd h
found-of options payload (some i) h = (i, refl, h.0, h.1)

-- An option is found, at an index where it stands.
pub index-found :
    (options : List Text) (payload : Text) (k : ℕ)
    → get_elem? options k ≡ some payload
    → (i : ℕ) × (index options payload ≡ some i)
      × (i < length options)
      × (get_elem? options i ≡ some payload)
index-found options payload k h =
    found-of options payload (index options payload) (index-IsIndex options payload k h)

-- A byte that was written reads back.
pub byte-written :
    (address i : ℕ) (s : StateSnapshot)
    → address < length s.settings
    → i < 256
    → settings_byte address (record s { settings = set s.settings address (pos i) }) ≡ i
unfolding low_byte
byte-written address i s inside small =
    settings_byte-found address _ (pos i) (get_elem?-set_self s.settings address (pos i) inside)
    ∙ omega arith

-- What is found is written, and reads back.
write_of-reads :
    (address : ℕ) (options : List Text) (payload : Text) (i : Option ℕ) (s : StateSnapshot)
    → length options ≤ 256
    → address < length s.settings
    → IsIndex options payload i
    → Option.map (λ write. enum address options (after write s)) (write_of address i) ≡ some payload
unfolding IsIndex enum named after
write_of-reads address options payload none s short inside h = absurd h
write_of-reads address options payload (some i) s short inside h =
    rw (byte-written address i s inside (omega (arith, h.0, short))) rw (h.1) refl

-- A choice from at most 256 options is encoded, and once its write shows in the settings, the
-- entity reads as the choice.
enum-encode_enum :
    (address : ℕ) (options : List Text) (payload : Text) (k : ℕ) (s : StateSnapshot)
    → length options ≤ 256
    → address < length s.settings
    → get_elem? options k ≡ some payload
    → Option.map
        (λ write. enum address options (after write s))
        (encode_enum address options payload)
      ≡ some payload
unfolding encode_enum
enum-encode_enum address options payload k s short inside h =
    write_of-reads address options payload (index options payload) s short inside
      (index-IsIndex options payload k h)
