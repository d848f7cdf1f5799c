-- ===== src/Broker/Write.antt =====
-- The write-intent channel of the broker: `_on_ws_command`, `_write_intent_loop` and
-- `_write_and_reconcile`. Addresses and bytes of a frame are whatever the JSON text held.
pub mod Admission
pub mod Retry
pub mod Heal
pub mod Wait
use r60v_home_assistant.Base.{
  ℕ, zero, suc, ◌+◌, min, Bool, true, false, not, ◌&&◌, ◌||◌, Option, none, some, List, [], ◌∷◌,
  ◌++◌, length, leb, if◌then◌else◌,
}
use mathlib.Core.Option
use r60v_home_assistant.Base.Int.{ℤ, pos, ltb_ℤ}
use r60v_home_assistant.Base.Results.{Result, ok, err}
use r60v_home_assistant.Protocol.Address.{settings_base, settings_len}
use r60v_home_assistant.Protocol.Frame.{Frame}
use r60v_home_assistant.Store.{
  any_out_of_range, apply_optimistic, expectation, reconcile_clear, note_success, note_failure,
  update_settings,
}
use r60v_home_assistant.Wedge.{in_cooldown, cooldown_remaining}
use r60v_home_assistant.Governor.{Fault, connection, other}
use r60v_home_assistant.Broker.{
  Action, reads, writes, sleeps, Broker, World, now, await, Task, ◌>>=◌, ◌>>◌, return,
  governor_read, governor_write, on_store, on_wedge, doing, broadcast,
}

abbrev pub write_retries : ℕ
write_retries = 2

abbrev pub write_retry_backoff : ℕ
write_retry_backoff = 500

abbrev pub intent_queue_max : ℕ
intent_queue_max = 32

-- What `frame.get` finds under a key: an integer (a JSON boolean counts as one), a list with its
-- integers and its other members, or anything else or nothing.
pub data Item : Type 0 where
  int : ℤ → Item
  not_int : Item

pub data Field : Type 0 where
  number : ℤ → Field
  items : List Item → Field
  neither : Field

-- The members as bytes, unless `any(not isinstance(b, int) or b < 0 or b > 0xFF for b in data)`.
byte_items : Option (List ℤ) → Item → Option (List ℤ)
byte_items (some bytes) (int b) =
    if ltb_ℤ b (pos 0) || ltb_ℤ (pos 0xFF) b then none else some (b ∷ bytes)
byte_items _ _ = none

unfoldable pub bytes_of : List Item → Option (List ℤ)
unfolding byte_items
bytes_of [] = some []
bytes_of (item ∷ rest) = byte_items (bytes_of rest) item

with_bytes : ℤ → Option (List ℤ) → Option (ℤ × List ℤ)
with_bytes address none = none
with_bytes address (some bytes) = some (address, bytes)

-- The intent that a frame asks for, when the frame passes both checks.
unfoldable pub intent_of : Field → Field → Option (ℤ × List ℤ)
unfolding with_bytes bytes_of
intent_of (number address) (items []) = none
intent_of (number address) (items (item ∷ rest)) = with_bytes address (bytes_of (item ∷ rest))
intent_of _ _ = none

-- Admission first: the queue, then the optimistic overlay, then the broadcast. A full queue drops
-- the intent.
admit : World → Option (ℤ × List ℤ) → Broker → Broker
admit w none b = b
admit w (some (address, bytes)) b =
    if leb intent_queue_max (length b.intents)
    then b
    else broadcast w (
        on_store (λ s. (apply_optimistic address bytes s).0)
          (record b { intents = b.intents ++ (address, bytes) ∷ [] }))

-- `_on_ws_command`, for a frame's `address` and `data`; the queue exists once `run` has started.
unfoldable pub on_ws_command : World → Field → Field → Broker → Broker
unfolding admit intent_of
on_ws_command w address data' b = admit w (intent_of address data') b

-- One attempt that has more after it, and the last one.
retried : World → Task Bool → Broker × Result Fault Frame → Broker × Result Fault Bool
unfolding await
retried w again (b, ok _) = (b, ok true)
retried w again (b, err connection) = again (await w (sleeps write_retry_backoff) b)
retried w again (b, err other) = (b, err other)

given_up : Broker × Result Fault Frame → Broker × Result Fault Bool
given_up (b, ok _) = (b, ok true)
given_up (b, err connection) = (b, ok false)
given_up (b, err other) = (b, err other)

-- The attempts of the `for` loop, with the number of those that may follow the first: `wrote`, or
-- the exception that escapes.
unfoldable pub attempts : World → ℤ → List ℤ → ℕ → Task Bool
unfolding retried given_up await
attempts w address bytes zero b = given_up (governor_write w address bytes b)
attempts w address bytes (suc n) b =
    retried w (attempts w address bytes n) (governor_write w address bytes b)

-- The authoritative read, its two ends, and the final broadcast.
refreshed : World → Broker × Result Fault (List ℤ) → Broker × Result Fault (Unit {0})
unfolding broadcast
refreshed w (b, ok bytes) =
    (broadcast w (on_store note_success (on_store (update_settings bytes) b)), ok tt)
refreshed w (b, err connection) = (broadcast w (on_store note_failure b), ok tt)
refreshed w (b, err other) = (b, err other)

unfoldable pub reconcile : World → ℤ → List ℤ → Bool → Task (Unit {0})
unfolding refreshed await
reconcile w address bytes wrote b =
    let cleared = on_store (reconcile_clear (expectation address bytes)) b in
    refreshed w (
      governor_read w (pos settings_base) (pos settings_len)
        (if wrote then cleared else on_store note_failure cleared))

-- `_write_and_reconcile`, once the cooldown is waited out.
unfoldable pub write_now : World → ℤ → List ℤ → Task (Unit {0})
unfolding attempts reconcile ◌>>=◌
write_now w address bytes = do
  wrote ← attempts w address bytes write_retries
  reconcile w address bytes wrote

-- `while self.wedge.in_cooldown: await asyncio.sleep(…)`; `none` when the fuel is spent.
unfoldable pub wait_out : ℕ → World → Broker → Option Broker
unfolding await
wait_out zero w b = none
wait_out (suc fuel) w b =
    let later =
      wait_out fuel w (await w (sleeps (min (cooldown_remaining (now w b) b.wedge + 50) 5000)) b) in
    if in_cooldown (now w b) b.wedge then later else some b

unfoldable pub write_and_reconcile :
    ℕ → World → ℤ → List ℤ → Broker → Option (Broker × Result Fault (Unit {0}))
unfolding wait_out write_now
write_and_reconcile fuel w address bytes b =
    Option.map (write_now w address bytes) (wait_out fuel w b)

serve : ℕ → World → List (ℤ × List ℤ) → Broker → Option Broker
unfolding write_and_reconcile
serve fuel w [] b = some b
serve fuel w ((address, bytes) ∷ rest) b =
    Option.map (λ r. r.0) (write_and_reconcile fuel w address bytes (record b { intents = rest }))

-- One round of `_write_intent_loop`: it waits on an empty queue, and swallows what escapes.
unfoldable pub serve_intent : ℕ → World → Broker → Option Broker
unfolding serve
serve_intent fuel w b = serve fuel w b.intents b
