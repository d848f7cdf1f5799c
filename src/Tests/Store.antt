-- ===== src/Tests/Store.antt =====
-- The device state store of bridge/r60v_broker/store.py over a small settings block.
use r60v_home_assistant.Base.{◌≡◌, refl, true, not, some, List, [], ◌∷◌, arith, get_elem?}
use r60v_home_assistant.Base.Int.{ℤ, pos}
use r60v_home_assistant.Base.Dict
use r60v_home_assistant.Store.{
  DeviceState, init, available, update_settings, apply_optimistic, reconcile_clear, expectation,
  overlay, any_out_of_range, record_pending,
}
use r60v_home_assistant.Store.Availability.{success, failure, wedged, run, offline, available-run}
use r60v_home_assistant.Store.Overlay.{Distinct}
use r60v_home_assistant.Store.Overlay.Reconcile.{newer_intent_kept}

abbrev new_store : DeviceState
new_store = init 3 30000 2

-- The store after a first settings read, and after one and two intents for the byte at address 1.
abbrev known : DeviceState
known = update_settings (pos 10 ∷ pos 20 ∷ pos 30 ∷ []) new_store

abbrev once : DeviceState
once = (apply_optimistic (pos 1) (pos 25 ∷ []) known).0

abbrev twice : DeviceState
twice = (apply_optimistic (pos 1) (pos 28 ∷ []) once).0

abbrev polled : List ℤ
polled = pos 10 ∷ pos 20 ∷ pos 31 ∷ []

known-Distinct : Distinct known.pending
unfolding init update_settings
known-Distinct = tt

once-accepted : apply_optimistic (pos 1) (pos 25 ∷ []) known ≡ (once, true)
unfolding init update_settings apply_optimistic overlay any_out_of_range
once-accepted = refl

twice-accepted : apply_optimistic (pos 1) (pos 28 ∷ []) once ≡ (twice, true)
unfolding init update_settings apply_optimistic overlay any_out_of_range record_pending Dict.put
twice-accepted = refl

available-run_example :
    available (run (init 3 30000 2) (failure ∷ wedged ∷ success ∷ []))
    ≡ not (offline 3 (failure ∷ wedged ∷ success ∷ []))
available-run_example = available-run 3 30000 2 (failure ∷ wedged ∷ success ∷ []) (omega arith)

newer_intent_kept_example :
    get_elem?
      (update_settings polled
        (reconcile_clear (expectation (pos 1) (pos 25 ∷ [])) twice)).snapshot.settings
      1
    ≡ some (pos 28)
newer_intent_kept_example =
    newer_intent_kept 1 0 (pos 25) (pos 28) (pos 25 ∷ []) (pos 28 ∷ []) polled known once twice
      known-Distinct once-accepted twice-accepted refl refl (λ e. cc) (omega arith)
