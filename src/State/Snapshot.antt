-- ===== src/State/Snapshot.antt =====
-- `StateSnapshot`, `le16` and the live registers of state.py. Addresses are those of the registry,
-- which are not negative.
use r60v_home_assistant.Base.{
  ℕ, ◌+◌, ◌*◌, ◌≡◌, ap, Option, none, some, List, [], ◌∷◌, get_elem?, replicate,
}
use r60v_home_assistant.Base.Int.{ℤ, pos, low_byte}
use r60v_home_assistant.Base.Dict.{Dict}
use r60v_home_assistant.Base.Dict
use r60v_home_assistant.Protocol.Address.{
  settings_len, current_brew_temp, current_service_temp, current_pressure, display,
}

-- The registers that are polled one by one, with their lengths.
abbrev pub live_registers : List (ℕ × ℕ)
live_registers =
    (current_brew_temp, 1) ∷ (current_service_temp, 1) ∷ (current_pressure, 1) ∷ (display, 16) ∷ []

pub record StateSnapshot : Type 0 where
  pub settings : List ℤ
  pub live : Dict (List ℤ)

abbrev pub blank : StateSnapshot
blank = record { settings = replicate settings_len (pos 0); live = [] }

pub byte_of : Option ℤ → ℕ
byte_of none = 0
byte_of (some b) = low_byte b

unfoldable pub settings_byte : ℕ → StateSnapshot → ℕ
unfolding byte_of
settings_byte address s = byte_of (get_elem? s.settings address)

pub settings_byte-found :
    (address : ℕ) (s : StateSnapshot) (b : ℤ)
    → get_elem? s.settings address ≡ some b
    → settings_byte address s ≡ low_byte b
unfolding settings_byte byte_of
settings_byte-found address s b h = ap byte_of h

bytes_of : Option (List ℤ) → List ℤ
bytes_of none = []
bytes_of (some bytes) = bytes

unfoldable pub live_bytes : ℕ → StateSnapshot → List ℤ
unfolding bytes_of
live_bytes address s = bytes_of (Dict.get address s.live)

low_and_high : Option ℤ → Option ℤ → Option ℕ
low_and_high (some a) (some b) = some (low_byte a + low_byte b * 256)
low_and_high _ _ = none

-- `none` is the `IndexError`. The two bytes share no bit, so `|` adds them.
unfoldable pub le16 : List ℤ → ℕ → Option ℕ
unfolding low_and_high
le16 bytes offset = low_and_high (get_elem? bytes offset) (get_elem? bytes (offset + 1))
