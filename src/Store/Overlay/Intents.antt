-- ===== src/Store/Overlay/Intents.antt =====
-- The life of a write intent in the store: `apply_optimistic`, polls in between, `reconcile_clear`.
use r60v_home_assistant.Base.{
  ℕ, zero, suc, ◌+◌, ◌≤◌, ◌<◌, ◌≡◌, ◌↔◌, ◌⊎◌, inr, refl, true, false, some, List, [], ◌∷◌, arith,
  length, get_elem?, All,
}
use r60v_home_assistant.Base.Int.{ℤ, pos, negsuc, ◌≤ℤ◌}
use r60v_home_assistant.Base.Dict.{Dict, get-put, get-pop}
use r60v_home_assistant.Base.Dict
use r60v_home_assistant.Store.{
  DeviceState, overlay, update_settings, any_out_of_range, record_pending, apply_optimistic,
}
use r60v_home_assistant.Store.Overlay.{
  Distinct, hide, record_pending-Distinct, get_elem?-overlay, get-record_pending,
}

abbrev pub IsByte : ℤ → Type 0
IsByte b = (pos 0 ≤ℤ b) × (b ≤ℤ pos 0xFF)

any_out_of_range_iff : (bytes : List ℤ) → (any_out_of_range bytes ≡ false) ↔ All IsByte bytes
unfolding any_out_of_range
any_out_of_range_iff [] = (λ _. tt, λ _. refl)
any_out_of_range_iff (b ∷ bs) =
    (λ h. ground (arith, any_out_of_range_iff bs), λ h. ground (arith, any_out_of_range_iff bs))

pub record Accepted (a : ℕ) (bytes : List ℤ) (s t : DeviceState) : Type 0 where
  pub pending_set : t.pending ≡ record_pending a bytes s.pending
  pub settings_set :
      t.snapshot.settings ≡ overlay (record_pending a bytes s.pending) s.snapshot.settings
  pub inside : a + length bytes ≤ length s.snapshot.settings

pub accepted :
    (a : ℕ) (bytes : List ℤ) (s t : DeviceState)
    → apply_optimistic (pos a) bytes s ≡ (t, true)
    → Accepted a bytes s t
unfolding apply_optimistic
accepted a bytes s t h = ground arith

-- What the docstring of `apply_optimistic` asks of an intent.
abbrev pub Fits : ℤ → List ℤ → DeviceState → Type 0
Fits (negsuc n) bytes s = ⊥
Fits (pos a) bytes s =
    (s.have_data ≡ true)
    × (0 < length bytes)
    × (a + length bytes ≤ length s.snapshot.settings)
    × All IsByte bytes

takes_up :
    (a : ℕ) (bytes : List ℤ) (s : DeviceState)
    → Fits (pos a) bytes s
    → (apply_optimistic (pos a) bytes s).1 ≡ true
unfolding apply_optimistic
takes_up a [] s h = absurd (omega arith)
takes_up a (b ∷ bs) s h = ground (arith, (any_out_of_range_iff (b ∷ bs)).1)

was_fit :
    (a : ℕ) (bytes : List ℤ) (s : DeviceState)
    → (apply_optimistic (pos a) bytes s).1 ≡ true
    → Fits (pos a) bytes s
unfolding apply_optimistic
was_fit a [] s h = ground arith
was_fit a (b ∷ bs) s h = ground (arith, (any_out_of_range_iff (b ∷ bs)).0)

-- An intent is taken up exactly when a baseline was read, its address is not negative, it is not
-- empty, it lies inside the settings block and all its data are bytes; otherwise the store stays
-- as it is.
apply_optimistic_iff :
    (address : ℤ) (bytes : List ℤ) (s : DeviceState)
    → (((apply_optimistic address bytes s).1 ≡ true) ↔ Fits address bytes s)
      × (((apply_optimistic address bytes s).1 ≡ true)
          ⊎ (apply_optimistic address bytes s ≡ (s, false)))
unfolding apply_optimistic
apply_optimistic_iff (negsuc n) bytes s = ((λ h. cc, λ h. absurd h), inr refl)
apply_optimistic_iff (pos a) bytes s = ((was_fit a bytes s, takes_up a bytes s), ground arith)

pub below : (xs : List ℤ) (i : ℕ) → i < length xs → (v : ℤ) × (get_elem? xs i ≡ some v)
below [] i h = elim h [ ]
below (x ∷ xs) zero h = (x, refl)
below (x ∷ xs) (suc i) h = below xs i (omega arith)

pub within : (xs : List ℤ) (i : ℕ) (v : ℤ) → get_elem? xs i ≡ some v → i < length xs
within [] i v h = cc
within (x ∷ xs) zero v h = omega arith
within (x ∷ xs) (suc i) v h = omega (arith, within xs i v h)

-- A pending byte shows wherever the block reaches that far.
pub shows :
    (p : Dict ℤ) (xs : List ℤ) (k : ℕ) (b : ℤ)
    → Distinct p
    → Dict.get k p ≡ some b
    → k < length xs
    → get_elem? (overlay p xs) k ≡ some b
unfolding hide
shows p xs k b d e h = ground (arith, get_elem?-overlay p xs k d, below xs k h)

-- Once an intent is taken up, the cached block shows its bytes at once, and so it does after any
-- later settings read that reaches that far, whatever that read returned.
optimistic-survives :
    (a i : ℕ) (b : ℤ) (bytes polled : List ℤ) (s t : DeviceState)
    → Distinct s.pending
    → apply_optimistic (pos a) bytes s ≡ (t, true)
    → get_elem? bytes i ≡ some b
    → a + i < length polled
    → (get_elem? t.snapshot.settings (a + i) ≡ some b)
      × (get_elem? (update_settings polled t).snapshot.settings (a + i) ≡ some b)
unfolding update_settings
optimistic-survives a i b bytes polled s t d h e inside =
    let taken = accepted a bytes s t h in
    let p = record_pending a bytes s.pending in
    let distinct = record_pending-Distinct a bytes s.pending d in
    let held = get-record_pending a i bytes s.pending b e in
    (
      rw (taken.settings_set) (
          shows p s.snapshot.settings (a + i) b distinct held
            (omega (arith, taken.inside, within bytes i b e))),
      rw (taken.pending_set) (shows p polled (a + i) b distinct held inside),
    )
