-- ===== src/Tests/Broker.antt =====
-- The broker of bridge/r60v_broker/broker.py: a poll loop in its cooldown, and one write intent.
use r60v_home_assistant.Base.{
  ℕ, ◌*◌, ◌≡◌, refl, inr, true, false, List, [], ◌∷◌, ◌++◌, arith, get_elem?,
}
use r60v_home_assistant.Base.Int.{ℤ, pos}
use r60v_home_assistant.Base.Results.{ok, err, is_ok}
use r60v_home_assistant.Store.{
  DeviceState, available, update_settings, apply_optimistic, overlay, any_out_of_range, note_wedged,
  note_success, interpolate_live_temps, set_available,
}
use r60v_home_assistant.Store.Overlay.{Distinct}
use r60v_home_assistant.Wedge.{WedgeRecovery, in_cooldown, awaiting_probe, begin_cooldown}
use r60v_home_assistant.Governor.{connection}
use r60v_home_assistant.Broker.{Broker, World, now}
use r60v_home_assistant.Protocol.Text.{codes}
use r60v_home_assistant.Broker.Command.{apply_command, writes_to}
use r60v_home_assistant.Broker.Poll.{touch_device, poll_turn, Cadence}
use r60v_home_assistant.Broker.Poll.Cooldown.{Rested, cooldown-offline}
use r60v_home_assistant.Broker.Poll.Gentle.{probe-gentle, probe_actions}
use r60v_home_assistant.Broker.Write.{int, number, items, intent_of, on_ws_command, write_now}
use r60v_home_assistant.Broker.Write.Admission.{Fared, admission}
use r60v_home_assistant.Broker.Write.Heal.{heals}
use r60v_home_assistant.Wedge
use r60v_home_assistant.Store

abbrev new_store : DeviceState
new_store = Store.init 3 30000 2

abbrev resting : WedgeRecovery
resting = (begin_cooldown 0 (Wedge.init 45000 (300, 600 ∷ []) 2)).0

-- A machine that refuses every write with a connection error and answers every read with three
-- bytes, on a clock that advances by 100 ms an await.
abbrev polled : List ℤ
polled = pos 10 ∷ pos 20 ∷ pos 31 ∷ []

abbrev refusing : World
refusing = record {
  clock = λ k. 100 * k;
  read_reply = λ k. ok polled;
  write_reply = λ k. err connection;
  store_meanwhile = λ k s. s;
  wedge_meanwhile = λ k v. v;
}

abbrev broker_with : DeviceState → WedgeRecovery → ℕ → Broker
broker_with s v k = record {
  mqtt_enabled = true;
  push_enabled = true;
  store = s;
  wedge = v;
  intents = [];
  log = [];
  awaits = k;
}

abbrev rested : Broker
rested = broker_with (note_wedged new_store) resting 1

abbrev due : Broker
due = broker_with (note_wedged new_store) resting 5

rested-Offline : available rested.store ≡ false
unfolding note_wedged available Store.init set_available
rested-Offline = refl

rested-InCooldown : in_cooldown (now refusing rested) rested.wedge ≡ true
unfolding in_cooldown begin_cooldown Wedge.init Wedge.step_at
rested-InCooldown = refl

due-AwaitingProbe : awaiting_probe (now refusing due) due.wedge ≡ true
unfolding awaiting_probe begin_cooldown Wedge.init Wedge.step_at
due-AwaitingProbe = refl

abbrev cadence : Cadence
cadence = record { tick = 4; idle = false }

cooldown-offline_example : Rested (poll_turn refusing 15 1 (cadence, rested)).1
cooldown-offline_example =
    cooldown-offline refusing 15 1 cadence rested (λ k v. refl) (λ k s h. h) (inr rested-Offline)

probe-gentle_example :
    (touch_device refusing false due).log
    ≡ due.log ++ probe_actions (is_ok (refusing.read_reply due.awaits))
probe-gentle_example = probe-gentle refusing false due due-AwaitingProbe

admission_example :
    Fared refusing
      (intent_of (number (pos 1)) (items (int (pos 25) ∷ [])))
      rested
      (on_ws_command refusing (number (pos 1)) (items (int (pos 25) ∷ [])) rested)
admission_example = admission refusing (number (pos 1)) (items (int (pos 25) ∷ [])) rested

-- The store after a first settings read, and with an intent for the byte at address 1.
abbrev known : DeviceState
known = update_settings (pos 10 ∷ pos 20 ∷ pos 30 ∷ []) new_store

abbrev shown : Broker
shown = broker_with (apply_optimistic (pos 1) (pos 25 ∷ []) known).0 resting 9

known-Distinct : Distinct known.pending
unfolding Store.init update_settings
known-Distinct = tt

shown-accepted : apply_optimistic (pos 1) (pos 25 ∷ []) known ≡ (shown.store, true)
unfolding Store.init update_settings apply_optimistic overlay any_out_of_range
shown-accepted = refl

heals_example :
    (get_elem? (write_now refusing (pos 1) (pos 25 ∷ []) shown).0.store.snapshot.settings 1
      ≡ get_elem? polled 1)
    × (available (write_now refusing (pos 1) (pos 25 ∷ []) shown).0.store ≡ true)
heals_example =
    heals refusing 1 1 (pos 25 ∷ []) polled known shown (λ k s. refl) (λ k e. cc) (λ k. refl)
      known-Distinct shown-accepted (omega arith) (omega arith)

-- The same machine, but one that takes writes.
abbrev taking : World
taking = record {
  clock = λ k. 100 * k;
  read_reply = λ k. ok polled;
  write_reply = λ k. ok (record {
    command = codes "w";
    address = pos 1;
    count = pos 1;
    bytes = [];
    supplied = [];
    raw = [];
  });
  store_meanwhile = λ k s. s;
  wedge_meanwhile = λ k v. v;
}

-- An MQTT command in the middle of a cooldown reaches the machine, and leaves the store available.
abbrev commanded : Broker
commanded =
    (apply_command taking (writes_to (pos 1) (pos 25 ∷ []))
      (broker_with (note_wedged new_store) resting 0)).0

commanded-Online : available commanded.store ≡ true
unfolding apply_command available interpolate_live_temps note_success update_settings note_wedged
    Store.init
commanded-Online = refl

commanded-InCooldown : in_cooldown (now taking commanded) commanded.wedge ≡ true
unfolding apply_command in_cooldown begin_cooldown Wedge.step_at Wedge.init
commanded-InCooldown = refl
