-- ===== src/Store/Overlay.antt =====
-- The optimistic overlay: what a settings read shows while intents are pending, and what clearing
-- one command's bytes leaves.
pub mod Intents
pub mod Reconcile
use r60v_home_assistant.Base.{
  ℕ, zero, suc, ◌+◌, ◌≤◌, ◌<◌, ◌≡◌, ◌≢◌, refl, ◌∙◌, sym, ap, ◌⊎◌, inl, inr, Bool, true, false,
  Option, none, some, List, [], ◌∷◌, arith, ltb, ◌==◌, if◌then◌else◌, Bool-cases, length, get_elem?,
  set, length-set, get_elem?-set_self, get_elem?-set_ne, get_elem?-beyond,
}
use r60v_home_assistant.Base.Int.{ℤ, pos, negsuc, ◌+ℤ◌, eq_of_parts}
use r60v_home_assistant.Base.Dict.{Dict, get-put, get-pop}
use r60v_home_assistant.Base.Dict
use r60v_home_assistant.Store.{
  DeviceState, overlay, update_settings, record_pending, apply_optimistic, clear_one, clear_all,
  expectation, reconcile_clear,
}

-- No address stands twice in a dict.
abbrev pub Distinct : Dict ℤ → Type 0
Distinct [] = Unit {0}
Distinct ((k, v) ∷ d) = (Dict.get k d ≡ none) × Distinct d

pub put-Distinct : (k : ℕ) (v : ℤ) (d : Dict ℤ) → Distinct d → Distinct (Dict.put k v d)
unfolding Dict.put
put-Distinct k v [] h = (unfold Dict.get in refl, tt)
put-Distinct k v ((j, w) ∷ d) h = ground (arith, get-put k j v d, put-Distinct k v d h.1)

pub pop-Distinct : (k : ℕ) (d : Dict ℤ) → Distinct d → Distinct (Dict.pop k d)
unfolding Dict.pop
pop-Distinct k [] h = tt
pop-Distinct k ((j, w) ∷ d) h = ground (arith, get-pop k j d, pop-Distinct k d h.1)

pub record_pending-Distinct :
    (a : ℕ) (bytes : List ℤ) (p : Dict ℤ) → Distinct p → Distinct (record_pending a bytes p)
unfolding record_pending
record_pending-Distinct a [] p h = h
record_pending-Distinct a (b ∷ bs) p h =
    record_pending-Distinct (suc a) bs (Dict.put a b p) (put-Distinct a b p h)

-- A pending byte hides the byte under it; it does not lengthen the block.
unfoldable pub hide : Option ℤ → Option ℤ → Option ℤ
hide none intended = none
hide (some byte) none = some byte
hide (some byte) (some intended) = some intended

get_elem?-set :
    (xs : List ℤ) (k a : ℕ) (b : ℤ)
    → get_elem? (set xs k b) a ≡ (if k == a then hide (get_elem? xs a) (some b) else get_elem? xs a)
unfolding hide
get_elem?-set [] k a b = ground arith
get_elem?-set (x ∷ xs) zero zero b = refl
get_elem?-set (x ∷ xs) zero (suc a) b = ground arith
get_elem?-set (x ∷ xs) (suc k) zero b = ground arith
get_elem?-set (x ∷ xs) (suc k) (suc a) b = ground (arith, get_elem?-set xs k a b)

set-beyond : (xs : List ℤ) (k : ℕ) (b : ℤ) → ltb k (length xs) ≡ false → set xs k b ≡ xs
set-beyond [] k b h = refl
set-beyond (x ∷ xs) zero b h = ground arith
set-beyond (x ∷ xs) (suc k) b h = ap (◌∷◌ x) (set-beyond xs k b (ground arith))

overlay-set :
    (k : ℕ) (b : ℤ) (p : Dict ℤ) (xs : List ℤ) → overlay ((k, b) ∷ p) xs ≡ overlay p (set xs k b)
unfolding overlay
overlay-set k b p xs = elim (Bool-cases (ltb k (length xs))) [
  | inl inside ↦ rw inside
  | inr beyond ↦ rw beyond (ap (overlay p) (sym (set-beyond xs k b beyond)))
]

pub get_elem?-overlay :
    (p : Dict ℤ) (xs : List ℤ) (a : ℕ)
    → Distinct p
    → get_elem? (overlay p xs) a ≡ hide (get_elem? xs a) (Dict.get a p)
unfolding Dict.get hide
get_elem?-overlay [] xs a h = unfold overlay in ground arith
get_elem?-overlay ((k, b) ∷ p) xs a h =
    rw overlay-set
      (ground (arith, get_elem?-overlay p (set xs k b) a h.1, get_elem?-set xs k a b, h.0))

-- Inside the bytes of an intent the dict holds them, outside it is as before.
get-record_pending_before :
    (a k : ℕ) (bytes : List ℤ) (p : Dict ℤ)
    → k < a
    → Dict.get k (record_pending a bytes p) ≡ Dict.get k p
unfolding record_pending
get-record_pending_before a k [] p h = refl
get-record_pending_before a k (b ∷ bs) p h =
    get-record_pending_before (suc a) k bs (Dict.put a b p) (omega arith)
    ∙ get-put a k b p
    ∙ ground arith

get-record_pending_after :
    (a k : ℕ) (bytes : List ℤ) (p : Dict ℤ)
    → a + length bytes ≤ k
    → Dict.get k (record_pending a bytes p) ≡ Dict.get k p
unfolding record_pending
get-record_pending_after a k [] p h = refl
get-record_pending_after a k (b ∷ bs) p h =
    get-record_pending_after (suc a) k bs (Dict.put a b p) (omega arith)
    ∙ get-put a k b p
    ∙ ground arith

pub get-record_pending :
    (a i : ℕ) (bytes : List ℤ) (p : Dict ℤ) (b : ℤ)
    → get_elem? bytes i ≡ some b
    → Dict.get (a + i) (record_pending a bytes p) ≡ some b
unfolding record_pending
get-record_pending a i [] p b h = cc
get-record_pending a zero (x ∷ bs) p b h =
    get-record_pending_before (suc a) (a + 0) bs (Dict.put a x p) (omega arith)
    ∙ get-put a (a + 0) x p
    ∙ ground arith
get-record_pending a (suc i) (x ∷ bs) p b h =
    ap (λ k. Dict.get k (record_pending (suc a) bs (Dict.put a x p))) (omega arith)
    ∙ get-record_pending (suc a) i bs (Dict.put a x p) b h

pub get-record_pending_outside :
    (a k : ℕ) (bytes : List ℤ) (p : Dict ℤ)
    → (k < a) ⊎ (a + length bytes ≤ k)
    → Dict.get k (record_pending a bytes p) ≡ Dict.get k p
get-record_pending_outside a k bytes p (inl h) = get-record_pending_before a k bytes p h
get-record_pending_outside a k bytes p (inr h) = get-record_pending_after a k bytes p h
