-- ===== src/Integration/Stream/Entries.antt =====
-- The entries of a frame's `live`.
use r60v_home_assistant.Base.{
  ℕ, ◌≡◌, refl, ap, sym, ◌∙◌, Bool, false, some, List, [], ◌∷◌, ◌++◌, map, append_assoc, append-nil,
  All, All-append, arith, ◌==◌,
}
use r60v_home_assistant.Base.Int.{ℤ}
use r60v_home_assistant.Base.Dict.{Dict}
use r60v_home_assistant.Base.Dict
use r60v_home_assistant.Protocol.Text.{Text}
use r60v_home_assistant.Integration.Profile.{decimal}
use r60v_home_assistant.Integration.Stream.{
  Item, listed, entries, state, with_entry, with_entries, keyed, updates, handle, with_settings,
  with_live, snapshot_of, available_of,
}
use r60v_home_assistant.Integration.Stream.Keys.{int_dec-decimal}

-- The keys of `live` are the addresses in decimal.
abbrev pub entry : ℕ × List ℤ → Text × Item
entry (address, bytes) = (decimal address, listed bytes)

-- A dict has no key twice.
abbrev pub Distinct : Dict (List ℤ) → Type 0
Distinct [] = Unit
Distinct ((k, v) ∷ d) = All (λ e. (e.0 == k) ≡ false) d × Distinct d

abbrev IsNew : ℕ → Dict (List ℤ) → Type 0
IsNew k = All (λ e. (e.0 == k) ≡ false)

put-new : (k : ℕ) (v : List ℤ) (d : Dict (List ℤ)) → IsNew k d → Dict.put k v d ≡ d ++ (k, v) ∷ []
unfolding Dict.put
put-new k v [] h = refl
put-new k v ((j, w) ∷ d) h = rw h.0 (ap (λ r. (j, w) ∷ r) (put-new k v d h.1))

with_entry-put :
    (k : ℕ) (v : List ℤ) (d : Dict (List ℤ)) → with_entry (entry (k, v)) d ≡ Dict.put k v d
unfolding with_entry keyed
with_entry-put k v d = rw (int_dec-decimal k) refl

-- The keys that are new to a dict stay new when it gets another one.
kept-IsNew :
    (k : ℕ) (v : List ℤ) (acc d : Dict (List ℤ))
    → All (λ e. IsNew e.0 acc) d
    → All (λ e. (e.0 == k) ≡ false) d
    → All (λ e. IsNew e.0 (acc ++ (k, v) ∷ [])) d
kept-IsNew k v acc [] h other = tt
kept-IsNew k v acc ((j, w) ∷ d) h other = (
  All-append (λ e. (e.0 == j) ≡ false) acc ((k, v) ∷ []) h.0 (ground (arith, other.0), tt),
  kept-IsNew k v acc d h.1 other.1,
)

with_entries-append :
    (d acc : Dict (List ℤ))
    → Distinct d
    → All (λ e. IsNew e.0 acc) d
    → with_entries (map entry d) acc ≡ acc ++ d
unfolding with_entries
with_entries-append [] acc distinct new = sym (append-nil acc)
with_entries-append ((k, v) ∷ d) acc distinct new =
    ap (with_entries (map entry d)) (with_entry-put k v acc ∙ put-new k v acc new.0)
    ∙ (with_entries-append d (acc ++ (k, v) ∷ []) distinct.1 (kept-IsNew k v acc d new.1 distinct.0)
        ∙ append_assoc acc ((k, v) ∷ []) d)

empty-IsNew : (d : Dict (List ℤ)) → All (λ e. IsNew e.0 []) d
empty-IsNew [] = tt
empty-IsNew (e ∷ d) = (tt, empty-IsNew d)

pub handle-entries :
    (settings : List ℤ) (live : Dict (List ℤ)) (available' : Bool)
    → Distinct live
    → handle (
        state (record {
          settings = some settings;
          live = entries (map entry live);
          available = some available';
        }))
      ≡ updates (record { settings = settings; live = live; available = available' })
unfolding handle with_settings with_live snapshot_of available_of
handle-entries settings live available' distinct =
    ap (λ d. updates (record { settings = settings; live = d; available = available' }))
      (with_entries-append live [] distinct (empty-IsNew live))
