-- ===== src/Integration/Snapshot.antt =====
-- The snapshot of the machine's memory in custom_components/rocket_r60v/entities.py: `StateSnapshot`
-- and `le16`, and how the bytes of a write show in it.
use r60v_home_assistant.Base.{
  ℕ, zero, suc, ◌+◌, ◌*◌, ◌≤◌, ◌<◌, ◌≡◌, ap, refl, sym, ◌∙◌, Bool, true, Option, none, some, List,
  [], ◌∷◌, leb, arith, if◌then◌else◌, length, get_elem?, set, replicate, get_elem?-set_self,
  get_elem?-set_ne, length-set, length-append, All, ◌++◌, append_assoc,
}
use mathlib.Core.Option.{some_inj}
use r60v_home_assistant.Base.Int.{ℤ, pos, low_byte}
use r60v_home_assistant.Base.Dict.{Dict}
use r60v_home_assistant.Base.Dict
use r60v_home_assistant.Protocol.Address.{settings_len}

pub record StateSnapshot : Type 0 where
  pub settings : List ℤ
  pub live : Dict (List ℤ)
  pub available : Bool

abbrev pub blank : StateSnapshot
blank = record { settings = replicate settings_len (pos 0); live = []; available = true }

byte_or_zero : Option ℤ → ℕ
byte_or_zero none = 0
byte_or_zero (some b) = low_byte b

unfoldable pub settings_byte : ℕ → StateSnapshot → ℕ
unfolding byte_or_zero
settings_byte address s = byte_or_zero (get_elem? s.settings address)

-- The bytes from an address on, with zeros behind the end.
unfoldable pub settings_block : ℕ → ℕ → StateSnapshot → List ℕ
settings_block address zero s = []
settings_block address (suc count) s =
    settings_byte address s ∷ settings_block (address + 1) count s

bytes_or_none : Option (List ℤ) → List ℤ
bytes_or_none none = []
bytes_or_none (some bytes) = bytes

unfoldable pub live_bytes : ℕ → StateSnapshot → List ℤ
unfolding bytes_or_none
live_bytes address s = bytes_or_none (Dict.get address s.live)

-- Unlike the bridge's, it gives 0 where the list is too short. The two bytes share no bit, so `|`
-- adds them.
unfoldable pub le16 : List ℤ → ℕ → ℕ
unfolding byte_or_zero
le16 bytes offset =
    if leb (length bytes) (offset + 1)
    then 0
    else byte_or_zero (get_elem? bytes offset) + byte_or_zero (get_elem? bytes (offset + 1)) * 256

-- A command for the machine: an address, and the bytes to write from there on.
abbrev pub Command : Type 0
Command = ℕ × List ℕ

unfoldable pub overwrite : ℕ → List ℕ → List ℤ → List ℤ
overwrite address [] settings = settings
overwrite address (b ∷ bytes) settings =
    overwrite (address + 1) bytes (set settings address (pos b))

-- The snapshot in which a command shows.
unfoldable pub after : Command → StateSnapshot → StateSnapshot
after (address, bytes) s = record s { settings = overwrite address bytes s.settings }

get-overwrite_below :
    (address : ℕ) (bytes : List ℕ) (settings : List ℤ) (i : ℕ)
    → i < address
    → get_elem? (overwrite address bytes settings) i ≡ get_elem? settings i
unfolding overwrite
get-overwrite_below address [] settings i lt = refl
get-overwrite_below address (b ∷ bytes) settings i lt =
    get-overwrite_below (address + 1) bytes (set settings address (pos b)) i (omega arith)
    ∙ get_elem?-set_ne settings (pos b) (λ e. omega arith)

get-overwrite :
    (address : ℕ) (bytes : List ℕ) (i b : ℕ) (settings : List ℤ)
    → get_elem? bytes i ≡ some b
    → address + length bytes ≤ length settings
    → get_elem? (overwrite address bytes settings) (address + i) ≡ some (pos b)
unfolding overwrite
get-overwrite address [] i b settings h fits = cc
get-overwrite address (c ∷ bytes) zero b settings h fits =
    let e : address + 0 ≡ address = omega arith in
    rw e (
      get-overwrite_below (address + 1) bytes (set settings address (pos c)) address (omega arith)
      ∙ (get_elem?-set_self settings address (pos c) (omega arith)
          ∙ ap (λ o. some (pos o)) (some_inj.0 h)))
get-overwrite address (c ∷ bytes) (suc i) b settings h fits =
    let e : address + suc i ≡ address + 1 + i = omega arith in
    rw e (
      get-overwrite (address + 1) bytes i b (set settings address (pos c)) h
        (omega (arith, length-set settings address (pos c))))

-- A byte of a command reads back from its own address.
pub settings_byte-after :
    (address : ℕ) (bytes : List ℕ) (i b : ℕ) (s : StateSnapshot)
    → get_elem? bytes i ≡ some b
    → b < 256
    → address + length bytes ≤ length s.settings
    → settings_byte (address + i) (after (address, bytes) s) ≡ b
unfolding settings_byte byte_or_zero after low_byte
settings_byte-after address bytes i b s h small fits =
    ap byte_or_zero (get-overwrite address bytes i b s.settings h fits) ∙ omega arith

get-overwrite_above :
    (address : ℕ) (bytes : List ℕ) (settings : List ℤ) (i : ℕ)
    → address + length bytes ≤ i
    → get_elem? (overwrite address bytes settings) i ≡ get_elem? settings i
unfolding overwrite
get-overwrite_above address [] settings i le = refl
get-overwrite_above address (b ∷ bytes) settings i le =
    get-overwrite_above (address + 1) bytes (set settings address (pos b)) i (omega arith)
    ∙ get_elem?-set_ne settings (pos b) (λ e. omega arith)

-- What lies behind a command stays.
pub settings_byte-after_above :
    (address : ℕ) (bytes : List ℕ) (i : ℕ) (s : StateSnapshot)
    → address + length bytes ≤ i
    → settings_byte i (after (address, bytes) s) ≡ settings_byte i s
unfolding settings_byte after
settings_byte-after_above address bytes i s le =
    ap byte_or_zero (get-overwrite_above address bytes s.settings i le)

-- The first byte of a command.
pub settings_byte-after_first :
    (address b : ℕ) (bytes : List ℕ) (s : StateSnapshot)
    → b < 256
    → address + length (b ∷ bytes) ≤ length s.settings
    → settings_byte address (after (address, b ∷ bytes) s) ≡ b
settings_byte-after_first address b bytes s small fits =
    let e : address ≡ address + 0 = omega arith in
    ap (λ a. settings_byte a (after (address, b ∷ bytes) s)) e
    ∙ settings_byte-after address (b ∷ bytes) 0 b s refl small fits

get_elem?-append_self :
    (front : List ℕ) (b : ℕ) (rest : List ℕ) → get_elem? (front ++ b ∷ rest) (length front) ≡ some b
get_elem?-append_self [] b rest = refl
get_elem?-append_self (c ∷ front) b rest = get_elem?-append_self front b rest

block-after :
    (address : ℕ) (front bytes : List ℕ) (s : StateSnapshot)
    → All (λ b. b < 256) bytes
    → address + length (front ++ bytes) ≤ length s.settings
    → settings_block (address + length front) (length bytes) (after (address, front ++ bytes) s)
      ≡ bytes
unfolding settings_block
block-after address front [] s small fits = refl
block-after address front (b ∷ bytes) s small fits =
    let more = front ++ b ∷ [] in
    let whole = front ++ b ∷ bytes in
    let joined : more ++ bytes ≡ whole = append_assoc front (b ∷ []) bytes in
    let next : address + length more ≡ address + length front + 1 =
      omega (arith, length-append {0} front (b ∷ [])) in
    let fits' : address + length (more ++ bytes) ≤ length s.settings =
      omega (arith, ap (λ (l : List ℕ). length l) joined, fits) in
    let later =
      ap (λ a. settings_block a (length bytes) (after (address, whole) s)) (sym next)
      ∙ (ap (λ l. settings_block (address + length more) (length bytes) (after (address, l) s))
            (sym joined)
          ∙ block-after address more bytes s small.1 fits') in
    ap
      (λ c.
        c ∷ settings_block (address + length front + 1) (length bytes) (after (address, whole) s))
      (settings_byte-after address whole (length front) b s (get_elem?-append_self front b bytes)
        small.0 fits)
    ∙ ap (◌∷◌ b) later

-- The bytes of a command read back as a block.
pub settings_block-after :
    (address : ℕ) (bytes : List ℕ) (s : StateSnapshot)
    → All (λ b. b < 256) bytes
    → address + length bytes ≤ length s.settings
    → settings_block address (length bytes) (after (address, bytes) s) ≡ bytes
settings_block-after address bytes s small fits =
    let e : address ≡ address + 0 = omega arith in
    ap (λ a. settings_block a (length bytes) (after (address, bytes) s)) e
    ∙ block-after address [] bytes s small fits
