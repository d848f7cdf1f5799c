-- ===== src/Emulator/Memory.antt =====
-- The emulator's memory gives back what was written to it.
use r60v_home_assistant.Base.{
  ℕ, zero, suc, ◌+◌, ◌-◌, ◌≤◌, ◌<◌, ◌≡◌, refl, ap, ◌∙◌, true, some, List, [], ◌∷◌, append-nil, map,
  arith, length, length-set, set, get_elem?, get_elem?-set_self, get_elem?-set_ne, take, drop,
}
use r60v_home_assistant.Base.Int.{ℤ, pos, ltb_ℤ, ◌+ℤ◌, low_byte, eq_of_parts, int_laws}
use r60v_home_assistant.Emulator.{
  MachineModel, bound, settings_slice, ljust, read_memory, place, put_bytes, write_memory,
}

-- The settings with the bytes written over them from an address on.
unfoldable pub written : ℕ → List ℤ → List ℕ → List ℕ
written a [] s = s
written a (v ∷ vs) s = written (suc a) vs (set s a (low_byte v))

pos_suc : (a : ℕ) → pos a +ℤ pos 1 ≡ pos (suc a)
pos_suc a = eq_of_parts (pos a +ℤ pos 1) (pos (suc a)) (omega int_laws)

pos_add : (a n : ℕ) → pos a +ℤ pos n ≡ pos (a + n)
pos_add a n = eq_of_parts (pos a +ℤ pos n) (pos (a + n)) (omega int_laws)

place-inside : (a : ℕ) → a < 256 → place (pos a) ≡ some a
unfolding place
place-inside a h = ground arith

put_bytes-written :
    (a : ℕ) (bytes : List ℤ) (s : List ℕ)
    → a + length bytes ≤ 256
    → put_bytes (pos a) bytes s ≡ (written a bytes s, true)
unfolding put_bytes written
put_bytes-written a [] s h = refl
put_bytes-written a (v ∷ vs) s h =
    rw (put_bytes, place-inside a (omega arith))
      (rw (pos_suc a) (put_bytes-written (suc a) vs (set s a (low_byte v)) (omega arith)))

length-written : (a : ℕ) (bytes : List ℤ) (s : List ℕ) → length (written a bytes s) ≡ length s
unfolding written
length-written a [] s = refl
length-written a (v ∷ vs) s =
    length-written (suc a) vs (set s a (low_byte v)) ∙ length-set s a (low_byte v)

get_elem?-written_below :
    (a i : ℕ) (bytes : List ℤ) (s : List ℕ)
    → i < a
    → get_elem? (written a bytes s) i ≡ get_elem? s i
unfolding written
get_elem?-written_below a i [] s h = refl
get_elem?-written_below a i (v ∷ vs) s h =
    get_elem?-written_below (suc a) i vs (set s a (low_byte v)) (omega arith)
    ∙ get_elem?-set_ne s (low_byte v) (λ e. omega arith)

drop-next : (a b : ℕ) (s : List ℕ) → get_elem? s a ≡ some b → drop a s ≡ b ∷ drop (suc a) s
drop-next a b [] h = cc
drop-next zero b (x ∷ s) h = ground arith
drop-next (suc a) b (x ∷ s) h = drop-next a b s h

take-drop-written :
    (a : ℕ) (bytes : List ℤ) (s : List ℕ)
    → a + length bytes ≤ length s
    → take (length bytes) (drop a (written a bytes s)) ≡ map low_byte bytes
unfolding written
take-drop-written a [] s h = refl
take-drop-written a (v ∷ vs) s h =
    let s' = set s a (low_byte v) in
    let size = length-set s a (low_byte v) in
    let here =
      get_elem?-written_below (suc a) a vs s' (omega arith)
      ∙ get_elem?-set_self s a (low_byte v) (omega arith) in
    rw (drop-next a (low_byte v) (written (suc a) vs s') here)
      (ap (λ l. low_byte v ∷ l) (take-drop-written (suc a) vs s' (omega arith)))

bound-inside : (a n : ℕ) → a + n ≤ 256 → bound (pos a +ℤ pos n) ≡ a + n
unfolding bound
bound-inside a n h = rw (pos_add a n) (omega arith)

bound-start : (a : ℕ) → a ≤ 256 → bound (pos a) ≡ a
unfolding bound
bound-start a h = omega arith

settings_slice-inside :
    (a n : ℕ) (s : List ℕ)
    → a + n ≤ 256
    → settings_slice (pos a) (pos a +ℤ pos n) s ≡ take n (drop a s)
unfolding settings_slice
settings_slice-inside a n s h =
    let size : a + n - a ≡ n = omega arith in
    rw (bound-inside a n h) (rw (bound-start a (omega arith)) (rw size refl))

length-map-low_byte : (bytes : List ℤ) → length (map low_byte bytes) ≡ length bytes
length-map-low_byte [] = refl
length-map-low_byte (b ∷ bs) = ap suc (length-map-low_byte bs)

ljust-full :
    (n : ℕ) (fill : ℕ) (chunk : List ℕ) → length chunk ≡ n → ljust (pos n) fill chunk ≡ chunk
unfolding ljust
ljust-full n fill chunk h =
    let none_missing : n - length chunk ≡ 0 = omega arith in rw none_missing (append-nil chunk)

low_address : (a : ℕ) → a < 256 → ltb_ℤ (pos a) (pos 0x100) ≡ true
low_address a h = ground arith

-- What is written inside the 256 bytes is read back, each byte by its low eight bits, and the write
-- runs to its end.
pub read_memory-write_memory :
    (a : ℕ) (bytes : List ℤ) (m : MachineModel)
    → length m.settings ≡ 256
    → a < 256
    → a + length bytes ≤ 256
    → ((write_memory (pos a) bytes m).1 ≡ true)
      × (read_memory (pos a) (pos (length bytes)) (write_memory (pos a) bytes m).0
          ≡ some (map low_byte bytes))
unfolding write_memory read_memory
read_memory-write_memory a bytes m size h k =
    let W = written a bytes m.settings in
    let long = length-written a bytes m.settings in
    let got =
      settings_slice-inside a (length bytes) W k
      ∙ take-drop-written a bytes m.settings (omega arith) in
    let full = ljust-full (length bytes) 0 (map low_byte bytes) (length-map-low_byte bytes) in
    rw (low_address a h) (rw (put_bytes-written a bytes m.settings k) (refl, rw got (ap some full)))
