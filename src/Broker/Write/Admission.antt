-- ===== src/Broker/Write/Admission.antt =====
-- What the write-intent queue takes in.
use mathlib.Core.List.{map}
use mathlib.Core.Option.{some_inj}
use r60v_home_assistant.Base.{
  ℕ, ◌≤◌, ◌<◌, ◌≡◌, refl, sym, ap, subst, ◌↔◌, ◌⊎◌, inl, inr, Bool, true, false, Option, none, some,
  List, [], ◌∷◌, ◌++◌, arith, leb, Bool-cases, All, length, length-append,
}
use r60v_home_assistant.Base.Int.{ℤ}
use r60v_home_assistant.Store.{apply_optimistic, DeviceState}
use r60v_home_assistant.Store.Overlay.Intents.{IsByte}
use r60v_home_assistant.Broker.{Broker, World, await, broadcast, broadcast_if, on_store}
use r60v_home_assistant.Broker.Write.{
  Item, int, not_int, Field, number, items, neither, bytes_of, byte_items, with_bytes, intent_of,
  admit, on_ws_command, intent_queue_max,
}

byte_items-byte :
    (o : Option (List ℤ)) (b : ℤ) (rest : List ℤ)
    → o ≡ some rest
    → IsByte b
    → byte_items o (int b) ≡ some (b ∷ rest)
unfolding byte_items
byte_items-byte none b rest e h = cc
byte_items-byte (some bs) b rest e h = ground arith

byte_items-some :
    (o : Option (List ℤ)) (b : ℤ) (bytes : List ℤ)
    → byte_items o (int b) ≡ some bytes
    → (rest : List ℤ) × (o ≡ some rest) × (bytes ≡ b ∷ rest) × IsByte b
unfolding byte_items
byte_items-some none b bytes h = cc
byte_items-some (some rest) b bytes h = (rest, refl, ground arith, ground arith)

byte_items-not_int : (o : Option (List ℤ)) → byte_items o not_int ≡ none
unfolding byte_items
byte_items-not_int none = refl
byte_items-not_int (some bs) = refl

bytes_of-map : (bytes : List ℤ) → All IsByte bytes → bytes_of (map int bytes) ≡ some bytes
unfolding bytes_of
bytes_of-map [] h = refl
bytes_of-map (b ∷ bs) h = byte_items-byte _ b bs (bytes_of-map bs h.1) h.0

bytes_of-bytes :
    (xs : List Item) (bytes : List ℤ)
    → bytes_of xs ≡ some bytes
    → (xs ≡ map int bytes) × All IsByte bytes
unfolding bytes_of
bytes_of-bytes [] [] h = (refl, tt)
bytes_of-bytes [] (b ∷ bs) h = cc
bytes_of-bytes (not_int ∷ xs) bytes h = absurd (let e = byte_items-not_int (bytes_of xs) in cc)
bytes_of-bytes (int b ∷ xs) bytes h =
    let (rest, e, e', byte) = byte_items-some (bytes_of xs) b bytes h in
    let (same, all) = bytes_of-bytes xs rest e in
    subst (λ bs. (int b ∷ xs ≡ map int bs) × All IsByte bs) (sym e')
      (ap (λ l. int b ∷ l) same, (byte, all))

-- A frame that asks for an intent: an integer address, and a list that is not empty, of bytes only.
abbrev pub Asks : Field → Field → ℤ × List ℤ → Type 0
Asks address data' (a, bytes) =
    (address ≡ number a) × (data' ≡ items (map int bytes)) × (0 < length bytes) × All IsByte bytes

with_bytes-some :
    (x a : ℤ) (o : Option (List ℤ)) (bytes : List ℤ)
    → with_bytes x o ≡ some (a, bytes)
    → (x ≡ a) × (o ≡ some bytes)
unfolding with_bytes
with_bytes-some x a none bytes h = cc
with_bytes-some x a (some bs) bytes h =
    let e = some_inj.0 h in (ap (λ p. p.0) e, ap (λ p. some p.1) e)

not_empty : (i : Item) (r : List Item) (bytes : List ℤ) → i ∷ r ≡ map int bytes → 0 < length bytes
not_empty i r [] h = cc
not_empty i r (b ∷ bs) h = omega arith

intent_of-Asks :
    (address data' : Field) (a : ℤ) (bytes : List ℤ)
    → intent_of address data' ≡ some (a, bytes)
    → Asks address data' (a, bytes)
unfolding intent_of
intent_of-Asks (number x) (items (i ∷ r)) a bytes h =
    let (e, e') = with_bytes-some x a (bytes_of (i ∷ r)) bytes h in
    let (same, all) = bytes_of-bytes (i ∷ r) bytes e' in
    (ap number e, ap items same, not_empty i r bytes same, all)
intent_of-Asks (number x) (items []) a bytes h = cc
intent_of-Asks (number x) (number y) a bytes h = cc
intent_of-Asks (number x) neither a bytes h = cc
intent_of-Asks (items x) data' a bytes h = cc
intent_of-Asks neither data' a bytes h = cc

intent_of-bytes :
    (a : ℤ) (bytes : List ℤ)
    → 0 < length bytes
    → All IsByte bytes
    → intent_of (number a) (items (map int bytes)) ≡ some (a, bytes)
unfolding intent_of with_bytes
intent_of-bytes a [] n h = absurd (omega arith)
intent_of-bytes a (b ∷ bs) n h = rw (bytes_of-map (b ∷ bs) h) refl

-- A frame gives an intent exactly when its address is an integer and its data is a list of one
-- byte or more, all of them integers from 0 to 255; the intent is then that address and those bytes.
pub intent_of_iff :
    (address data' : Field) (a : ℤ) (bytes : List ℤ)
    → (intent_of address data' ≡ some (a, bytes)) ↔ Asks address data' (a, bytes)
intent_of_iff address data' a bytes = (
  intent_of-Asks address data' a bytes,
  λ (e, e', n, h). rw e (rw e' (intent_of-bytes a bytes n h)),
)

-- What a broadcast leaves of the store: with no push server it does not run.
abbrev pub after_broadcast : World → Bool → ℕ → DeviceState → DeviceState
after_broadcast w true k s = w.store_meanwhile k s
after_broadcast w false k s = s

broadcast_if-parts :
    (w : World) (push : Bool) (b : Broker)
    → ((broadcast_if push w b).intents ≡ b.intents)
      × ((broadcast_if push w b).store ≡ after_broadcast w push b.awaits b.store)
unfolding broadcast_if await
broadcast_if-parts w true b = (refl, refl)
broadcast_if-parts w false b = (refl, refl)

-- How a frame's intent fared, given the broker before and after.
abbrev pub Fared : World → Option (ℤ × List ℤ) → Broker → Broker → Type 0
Fared w o b b' =
    (((o ≡ none) ⊎ (intent_queue_max ≤ length b.intents)) × (b' ≡ b))
    ⊎ ((intent : ℤ × List ℤ) × (o ≡ some intent)
        × (length b'.intents ≤ intent_queue_max)
        × (b'.intents ≡ b.intents ++ intent ∷ [])
        × (b'.store
            ≡ after_broadcast w b.push_enabled b.awaits
                (apply_optimistic intent.0 intent.1 b.store).0))

leb-≤ : (m n : ℕ) → leb m n ≡ true → m ≤ n
leb-≤ m n h = ground arith

leb-< : (m n : ℕ) → leb m n ≡ false → n < m
leb-< m n h = ground arith

admit-Fared : (w : World) (o : Option (ℤ × List ℤ)) (b : Broker) → Fared w o b (admit w o b)
unfolding admit broadcast
admit-Fared w none b = inl (inl refl, refl)
admit-Fared w (some (a, bytes)) b = elim (Bool-cases (leb intent_queue_max (length b.intents))) [
  | inl full ↦ inl (inr (leb-≤ _ _ full), rw full refl)
  | inr room ↦
      let queued = record b { intents = b.intents ++ (a, bytes) ∷ [] } in
      let shown = on_store (λ s. (apply_optimistic a bytes s).0) queued in
      let parts = broadcast_if-parts w b.push_enabled shown in
      let long = length-append b.intents ((a, bytes) ∷ []) in
      let short = leb-< _ _ room in
      inr (rw room ((a, bytes), refl, rw parts.0 (omega arith), parts.0, parts.1))
]

-- A frame that gives no intent, or that finds the queue full, changes nothing at all. Any other
-- frame's intent goes to the end of the queue, which stays within its bound, and then into the
-- optimistic overlay.
pub admission :
    (w : World) (address data' : Field) (b : Broker)
    → Fared w (intent_of address data') b (on_ws_command w address data' b)
unfolding on_ws_command
admission w address data' b = admit-Fared w (intent_of address data') b
