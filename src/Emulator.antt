-- ===== src/Emulator.antt =====
-- The emulator's machine (bridge/r60v_broker/emulator.py): its memory, and how a request frame is
-- processed. The live values are those that `round` gives, and the clock's fields are given too.
pub mod Memory
pub mod Wire
pub mod Session
pub mod Defaults
use r60v_home_assistant.Base.{
  ℕ, zero, suc, ◌+◌, ◌-◌, ◌*◌, ◌/◌, ◌%◌, ◌^◌, max, min, Bool, true, false, Option, none, some, List,
  [], ◌∷◌, ◌++◌, map, ltb, leb, ◌==◌, if◌then◌else◌, length, set, take, drop, replicate,
}
use r60v_home_assistant.Base.Int.{ℤ, pos, negsuc, ◌+ℤ◌, ltb_ℤ, low_byte}
use r60v_home_assistant.Base.Results.{Result, ok, err}
use r60v_home_assistant.Protocol.Text.{Text, text_eq}
use r60v_home_assistant.Protocol.Hex.{int_hex}
use r60v_home_assistant.Protocol.Frame.{
  read, write, ProtocolError, Frame, build_frame, build_ack, parse_frame, slice,
}
use r60v_home_assistant.Protocol.Address.{
  current_brew_temp, current_service_temp, current_pressure, display, date_time,
}

-- `settings` is a `bytearray` of 256 bytes.
pub record MachineModel : Type 0 where
  pub settings : List ℕ
  pub brew_temp : ℤ
  pub service_temp : ℤ
  pub decibar : ℤ
  pub shown : List ℕ
  pub clock_fields : List ℕ

-- The bound of a slice of 256 bytes; a negative one counts from the end.
bound : ℤ → ℕ
bound (pos n) = min n 256
bound (negsuc n) = 256 - suc n

-- `settings[start:stop]`
settings_slice : ℤ → ℤ → List ℕ → List ℕ
unfolding bound
settings_slice start stop settings = take (bound stop - bound start) (drop (bound start) settings)

-- `chunk.ljust(length, fill)`
ljust : ℤ → ℕ → List ℕ → List ℕ
ljust (pos n) fill chunk = chunk ++ replicate (n - length chunk) fill
ljust (negsuc n) fill chunk = chunk

-- `chunk[:length]`
up_to : ℤ → List ℕ → List ℕ
up_to (pos n) chunk = take n chunk
up_to (negsuc n) chunk = take (length chunk - suc n) chunk

-- `bytes(length)`, which raises for a negative length.
zeros : ℤ → Option (List ℕ)
zeros (pos n) = some (replicate n 0)
zeros (negsuc n) = none

little_endian : ℕ → ℕ → List ℕ
little_endian zero value = []
little_endian (suc n) value = value % 256 ∷ little_endian n (value / 256)

at_least_zero : ℤ → ℕ
at_least_zero (pos n) = n
at_least_zero (negsuc n) = 0

or_zeros : ℤ → List ℕ → Option (List ℕ)
unfolding zeros
or_zeros count [] = zeros count
or_zeros count (b ∷ bs) = some (b ∷ bs)

-- `none` is the `OverflowError` of `to_bytes`, or the `ValueError` of `bytes`.
unfoldable pub int_bytes : ℤ → ℤ → Option (List ℕ)
unfolding at_least_zero little_endian up_to or_zeros
int_bytes value count =
    let wide = max (at_least_zero count) 1 in
    if ltb (at_least_zero value) (256 ^ wide)
    then or_zeros count (up_to count (little_endian wide (at_least_zero value)))
    else none

is_at : ℤ → ℕ → Bool
is_at (pos a) b = a == b
is_at (negsuc n) b = false

unfoldable pub read_live : ℤ → ℤ → MachineModel → Option (List ℕ)
unfolding is_at int_bytes ljust up_to zeros
read_live address count m =
    if is_at address current_brew_temp
    then int_bytes m.brew_temp count
    else if is_at address current_service_temp
    then int_bytes m.service_temp count
    else if is_at address current_pressure
    then int_bytes m.decibar count
    else if is_at address display
    then some (up_to count (ljust count 32 m.shown))
    else if is_at address date_time
    then some (up_to count (ljust count 0 m.clock_fields))
    else zeros count

-- `MachineModel.read`
unfoldable pub read_memory : ℤ → ℤ → MachineModel → Option (List ℕ)
unfolding ljust settings_slice read_live
read_memory address count m =
    if ltb_ℤ address (pos 0x100)
    then some (ljust count 0 (settings_slice address (address +ℤ count) m.settings))
    else read_live address count m

-- The place of an index in 256 bytes; `none` is the `IndexError`.
place : ℤ → Option ℕ
place (pos n) = if ltb n 256 then some n else none
place (negsuc n) = if ltb n 256 then some (255 - n) else none

-- The loop of `MachineModel.write`: the settings after it, and whether it ran to its end. The bytes
-- before an index that is out of range stay written.
unfoldable pub put_bytes : ℤ → List ℤ → List ℕ → List ℕ × Bool
unfolding place
put_bytes address [] settings = (settings, true)
put_bytes address (value ∷ values) settings = elim (place address) [
  | none ↦ (settings, false)
  | some i ↦ put_bytes (address +ℤ pos 1) values (set settings i (low_byte value))
]

unfoldable pub write_memory : ℤ → List ℤ → MachineModel → MachineModel × Bool
unfolding put_bytes
write_memory address bytes m =
    if ltb_ℤ address (pos 0x100)
    then (let (settings, done) = put_bytes address bytes m.settings in
        (record m { settings = settings }, done))
    else (m, true)

-- What `_process` comes to: a reply, `None`, or an exception, which ends the connection too.
pub data Outcome : Type 0 where
  replies : Text → Outcome
  drops raises : Outcome

reply_with : Result ProtocolError Text → Outcome
reply_with (ok text) = replies text
reply_with (err e) = raises

answer_read : ℤ → ℤ → Option (List ℕ) → Outcome
unfolding reply_with build_frame
answer_read address count none = raises
answer_read address count (some bytes) = reply_with (build_frame read address count (map pos bytes))

answer_write : Frame → MachineModel × Bool → MachineModel × Outcome
unfolding reply_with build_ack
answer_write f (m, true) = (m, reply_with (build_ack write f.address f.count))
answer_write f (m, false) = (m, raises)

handle : Result ProtocolError Frame → MachineModel → MachineModel × Outcome
unfolding answer_read answer_write read_memory write_memory
handle (err e) m = (m, drops)
handle (ok f) m =
    if text_eq f.command read
    then (m, answer_read f.address f.count (read_memory f.address f.count m))
    else answer_write f (write_memory f.address f.bytes m)

unfoldable pub process : Text → MachineModel → MachineModel × Outcome
unfolding handle parse_frame
process raw m = handle (parse_frame true raw) m
