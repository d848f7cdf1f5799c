-- ===== src/Store/Overlay/Reconcile.antt =====
-- What `reconcile_clear` leaves of the overlay, with older and newer intents in it.
use r60v_home_assistant.Base.{
  ℕ, zero, suc, ◌+◌, ◌-◌, ◌≤◌, ◌<◌, ◌≡◌, ◌≢◌, refl, ◌∙◌, ap, ◌⊎◌, inl, inr, true, Option, none,
  some, List, [], ◌∷◌, arith, Option-cases, Bool-cases, length, get_elem?,
}
use r60v_home_assistant.Base.Int.{ℤ, pos, negsuc, ◌+ℤ◌, eq_ℤ, eq_of_parts}
use r60v_home_assistant.Base.Dict.{Dict, get-put, get-pop}
use r60v_home_assistant.Base.Dict
use r60v_home_assistant.Store.{
  DeviceState, clear_found, update_settings, record_pending, apply_optimistic, clear_one, clear_all,
  expectation, reconcile_clear,
}
use r60v_home_assistant.Store.Overlay.{
  Distinct, hide, record_pending-Distinct, get_elem?-overlay, get-record_pending,
  get-record_pending_outside, pop-Distinct,
}
use r60v_home_assistant.Store.Overlay.Intents.{accepted, below, shows}

next_address : (a : ℕ) → pos a +ℤ pos 1 ≡ pos (suc a)
unfolding ◌+ℤ◌
next_address a = ground arith

clear_all-next :
    (a : ℕ) (b : ℤ) (bytes : List ℤ) (p : Dict ℤ)
    → clear_all (expectation (pos a) (b ∷ bytes)) p
      ≡ clear_all (expectation (pos (suc a)) bytes) (clear_one (pos a) b p)
unfolding clear_all expectation
clear_all-next a b bytes p = rw (next_address a)

get-clear_one :
    (a k : ℕ) (b : ℤ) (p : Dict ℤ)
    → (a ≢ k) ⊎ (Dict.get k p ≢ some b)
    → Dict.get k (clear_one (pos a) b p) ≡ Dict.get k p
unfolding clear_one clear_found
get-clear_one a k b p h = elim (Option-cases (Dict.get a p)) [
  | inl e ↦ rw (e, clear_found)
  | inr (c, e) ↦ ground (arith, get-pop a k p, eq_of_parts c b)
]

-- A clear touches no address outside the command's bytes.
get-clear_outside :
    (a k : ℕ) (bytes : List ℤ) (p : Dict ℤ)
    → (k < a) ⊎ (a + length bytes ≤ k)
    → Dict.get k (clear_all (expectation (pos a) bytes) p) ≡ Dict.get k p
get-clear_outside a k [] p h = unfold clear_all expectation in refl
get-clear_outside a k (b ∷ bs) p h = rw clear_all-next (
    get-clear_outside (suc a) k bs (clear_one (pos a) b p) (omega arith)
    ∙ get-clear_one a k b p (inl (omega arith)))

-- A byte that a newer intent has changed stays pending.
superseded :
    (a i k : ℕ) (old new : ℤ) (bytes : List ℤ) (p : Dict ℤ)
    → k ≡ a + i
    → get_elem? bytes i ≡ some old
    → old ≢ new
    → Dict.get k p ≡ some new
    → Dict.get k (clear_all (expectation (pos a) bytes) p) ≡ some new
superseded a i k old new [] p q h ne e = cc
superseded a zero k old new (b ∷ bs) p q h ne e = rw clear_all-next (
    get-clear_outside (suc a) k bs (clear_one (pos a) b p) (inl (omega arith))
    ∙ get-clear_one a k b p (inr (λ same. ne (cc)))
    ∙ e)
superseded a (suc i) k old new (b ∷ bs) p q h ne e = rw clear_all-next (
    superseded (suc a) i k old new bs (clear_one (pos a) b p) (omega arith) h ne
      (get-clear_one a k b p (inl (omega arith)) ∙ e))

-- A byte that still holds the command's value is dropped.
clear_one-own :
    (a : ℕ) (b : ℤ) (p : Dict ℤ) → Dict.get a p ≡ some b → Dict.get a (clear_one (pos a) b p) ≡ none
unfolding clear_one clear_found
clear_one-own a b p e = ground (arith, get-pop a a p)

own :
    (a i k : ℕ) (b : ℤ) (bytes : List ℤ) (p : Dict ℤ)
    → k ≡ a + i
    → get_elem? bytes i ≡ some b
    → Dict.get k p ≡ some b
    → Dict.get k (clear_all (expectation (pos a) bytes) p) ≡ none
own a i k b [] p q h e = cc
own a zero k b (x ∷ bs) p q h e =
    let here : k ≡ a = omega arith in
    rw (clear_all-next, here)
      (get-clear_outside (suc a) a bs (clear_one (pos a) x p) (inl (omega arith))
        ∙ clear_one-own a x p (cc))
own a (suc i) k b (x ∷ bs) p q h e = rw clear_all-next (
    own (suc a) i k b bs (clear_one (pos a) x p) (omega arith) h
      (get-clear_one a k x p (inl (omega arith)) ∙ e))

clear_found-Distinct :
    (o : Option ℤ) (a : ℕ) (byte : ℤ) (p : Dict ℤ) → Distinct p → Distinct (clear_found o a byte p)
unfolding clear_found
clear_found-Distinct none a byte p h = h
clear_found-Distinct (some b) a byte p h = elim (Bool-cases (eq_ℤ b byte)) [
  | inl same ↦ rw same (pop-Distinct a p h)
  | inr other ↦ rw other h
]

clear_one-Distinct :
    (address byte : ℤ) (p : Dict ℤ) → Distinct p → Distinct (clear_one address byte p)
unfolding clear_one
clear_one-Distinct (pos a) byte p h = clear_found-Distinct (Dict.get a p) a byte p h
clear_one-Distinct (negsuc n) byte p h = h

clear_all-Distinct :
    (expected : List (ℤ × ℤ)) (p : Dict ℤ) → Distinct p → Distinct (clear_all expected p)
unfolding clear_all
clear_all-Distinct [] p h = h
clear_all-Distinct ((address, byte) ∷ expected) p h =
    clear_all-Distinct expected (clear_one address byte p) (clear_one-Distinct address byte p h)

hide-none : (o : Option ℤ) → hide o none ≡ o
unfolding hide
hide-none none = refl
hide-none (some b) = refl

cleared :
    (a k : ℕ) (bytes : List ℤ) (p : Dict ℤ)
    → a ≤ k
    → k < a + length bytes
    → Dict.get k (clear_all (expectation (pos a) bytes) (record_pending a bytes p)) ≡ none
cleared a k bytes p lo hi =
    let (b, e) = below bytes (k - a) (omega arith) in
    let here : k ≡ a + (k - a) = omega arith in
    own a (k - a) k b bytes (record_pending a bytes p) here e (
      ap (λ m. Dict.get m (record_pending a bytes p)) here
      ∙ get-record_pending a (k - a) bytes p b e)

-- Two intents for the same address: when the first is reconciled, the bytes in which the second
-- differs stay pending, so the next settings read still shows the newer intent.
pub newer_intent_kept :
    (a i : ℕ) (old new : ℤ) (bytes bytes' polled : List ℤ) (s t u : DeviceState)
    → Distinct s.pending
    → apply_optimistic (pos a) bytes s ≡ (t, true)
    → apply_optimistic (pos a) bytes' t ≡ (u, true)
    → get_elem? bytes i ≡ some old
    → get_elem? bytes' i ≡ some new
    → old ≢ new
    → a + i < length polled
    → let v = update_settings polled (reconcile_clear (expectation (pos a) bytes) u) in
      get_elem? v.snapshot.settings (a + i) ≡ some new
unfolding update_settings reconcile_clear
newer_intent_kept a i old new bytes bytes' polled s t u d h h' e e' ne inside =
    let p = record_pending a bytes s.pending in
    let q = record_pending a bytes' p in
    let first = accepted a bytes s t h in
    let second = accepted a bytes' t u h' in
    rw (second.pending_set, first.pending_set)
      (shows (clear_all (expectation (pos a) bytes) q) polled (a + i) new
        (clear_all-Distinct (expectation (pos a) bytes) q
          (record_pending-Distinct a bytes' p (record_pending-Distinct a bytes s.pending d)))
        (superseded a i (a + i) old new bytes q refl e ne (get-record_pending a i bytes' p new e'))
        inside)

-- An intent that nothing overtook is gone once it is reconciled: at each of its addresses the next
-- settings read shows the byte as the machine reports it.
pub reconciled :
    (a k : ℕ) (bytes polled : List ℤ) (s t : DeviceState)
    → Distinct s.pending
    → apply_optimistic (pos a) bytes s ≡ (t, true)
    → a ≤ k
    → k < a + length bytes
    → let v = update_settings polled (reconcile_clear (expectation (pos a) bytes) t) in
      get_elem? v.snapshot.settings k ≡ get_elem? polled k
unfolding update_settings reconcile_clear
reconciled a k bytes polled s t d h lo hi =
    let p = record_pending a bytes s.pending in
    let left = clear_all (expectation (pos a) bytes) p in
    let distinct =
      clear_all-Distinct (expectation (pos a) bytes) p
        (record_pending-Distinct a bytes s.pending d) in
    rw ((accepted a bytes s t h).pending_set) (
      get_elem?-overlay left polled k distinct
      ∙ ap (hide (get_elem? polled k)) (cleared a k bytes s.pending lo hi)
      ∙ hide-none _)

-- Reconciling an intent leaves every other address alone: the next settings read shows there what
-- the intents that were pending before it have, and otherwise what the machine reports.
reconciled_elsewhere :
    (a k : ℕ) (bytes polled : List ℤ) (s t : DeviceState)
    → Distinct s.pending
    → apply_optimistic (pos a) bytes s ≡ (t, true)
    → (k < a) ⊎ (a + length bytes ≤ k)
    → let v = update_settings polled (reconcile_clear (expectation (pos a) bytes) t) in
      get_elem? v.snapshot.settings k ≡ hide (get_elem? polled k) (Dict.get k s.pending)
unfolding update_settings reconcile_clear
reconciled_elsewhere a k bytes polled s t d h out =
    let p = record_pending a bytes s.pending in
    let left = clear_all (expectation (pos a) bytes) p in
    let distinct =
      clear_all-Distinct (expectation (pos a) bytes) p
        (record_pending-Distinct a bytes s.pending d) in
    rw ((accepted a bytes s t h).pending_set) (
      get_elem?-overlay left polled k distinct
      ∙ ap (hide (get_elem? polled k))
          (get-clear_outside a k bytes p out ∙ get-record_pending_outside a k bytes s.pending out))
