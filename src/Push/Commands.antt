-- ===== src/Push/Commands.antt =====
-- From a command of the integration, over the push server, to the broker's queue of intents.
use r60v_home_assistant.Base.{
  ℕ, suc, ◌<◌, ◌≡◌, refl, ap, ◌∙◌, inl, inr, Bool, true, false, Option, some, List, [], ◌∷◌, ◌++◌,
  map, All, length, get_elem?, arith,
}
use r60v_home_assistant.Base.Int.{ℤ, pos}
use r60v_home_assistant.Base.Results.{ok}
use r60v_home_assistant.Protocol.Text.{Text}
use r60v_home_assistant.Store.{apply_optimistic}
use r60v_home_assistant.Store.Overlay.Intents.{IsByte}
use r60v_home_assistant.Broker.{Broker, World}
use r60v_home_assistant.Broker.Write.{
  int, number, items, intent_of, on_ws_command, intent_queue_max,
}
use r60v_home_assistant.Broker.Write.Admission.{Fared, after_broadcast, intent_of_iff, admission}
use r60v_home_assistant.Integration.Profile.{Reading}
use r60v_home_assistant.Integration.Snapshot.{Command}
use r60v_home_assistant.Integration.Registry.{Value, command_for, R60vEntityDescription, entities}
use r60v_home_assistant.Integration.Registry.RoundTrip.{IsValue}
use r60v_home_assistant.Integration.Registry.Bytes.{IsWrite, command_for-IsWrite}
use r60v_home_assistant.Integration.Stream.{CommandFrame, send_command}
use r60v_home_assistant.Push.{Inbound, command, handle_inbound}

-- What the server finds in the JSON text of a command frame.
unfoldable pub inbound_of : CommandFrame → Inbound
inbound_of f = command (number f.address) (items (map int f.bytes))

length-map {ℓ κ} :
    {A : Type ℓ} {B : Type κ} (f : A → B) (xs : List A) → length (map f xs) ≡ length xs
length-map f [] = refl
length-map f (x ∷ xs) = ap suc (length-map f xs)

pos-IsByte : (bytes : List ℕ) → All (λ b. b < 256) bytes → All IsByte (map pos bytes)
pos-IsByte [] h = tt
pos-IsByte (b ∷ bytes) h = ((omega arith, omega (arith, h.0)), pos-IsByte bytes h.1)

sent-frame :
    (up taken : Bool) (address : ℤ) (bytes : List ℤ) (key : Option Text) (f : CommandFrame)
    → send_command up taken address bytes key ≡ ok f
    → (f.address ≡ address) × (f.bytes ≡ bytes)
unfolding send_command
sent-frame true true address bytes key f h = (cc, cc)
sent-frame true false address bytes key f h = absurd cc
sent-frame false taken address bytes key f h = absurd cc

write-intent :
    (c : Command)
    → IsWrite c
    → intent_of (number (pos c.0)) (items (map int (map pos c.1))) ≡ some (pos c.0, map pos c.1)
write-intent c w =
    (intent_of_iff (number (pos c.0)) (items (map int (map pos c.1))) (pos c.0) (map pos c.1)).1
      (refl, refl, omega (arith, length-map pos c.1, w.some_byte), pos-IsByte c.1 w.bytes)

queued :
    (w : World) (o : Option (ℤ × List ℤ)) (intent : ℤ × List ℤ) (b b' : Broker)
    → o ≡ some intent
    → length b.intents < intent_queue_max
    → Fared w o b b'
    → (b'.intents ≡ b.intents ++ intent ∷ [])
      × (b'.store
          ≡ after_broadcast w b.push_enabled b.awaits
              (apply_optimistic intent.0 intent.1 b.store).0)
queued w o intent b b' e room (inl (inl missing, same)) = absurd cc
queued w o intent b b' e room (inl (inr full, same)) = absurd (omega arith)
queued w o intent b b' e room (inr (it, is, short, queue, store)) =
    let eq : it ≡ intent = cc in
    (
      queue ∙ ap (λ i. b.intents ++ i ∷ []) eq,
      store
          ∙ ap
              (λ (i : ℤ × List ℤ).
                after_broadcast w b.push_enabled b.awaits (apply_optimistic i.0 i.1 b.store).0)
              eq,
    )

-- Whatever command a writable entity of the integration's registry makes, when the stream takes its
-- frame and the bridge's queue has room, the bridge accepts it: its address and bytes go to the end
-- of the queue of intents, and into the optimistic overlay of the store.
pub command_for-queued :
    (read : Text → Reading) (k : ℕ) (e : R60vEntityDescription) (v : Value) (c : Command)
    (up taken : Bool) (key : Option Text) (f : CommandFrame) (w : World) (b : Broker)
    → get_elem? (entities read) k ≡ some e
    → IsValue v
    → command_for e.access v ≡ some c
    → send_command up taken (pos c.0) (map pos c.1) key ≡ ok f
    → length b.intents < intent_queue_max
    → ((handle_inbound (some (on_ws_command w)) (inbound_of f) b).intents
        ≡ b.intents ++ (pos c.0, map pos c.1) ∷ [])
      × ((handle_inbound (some (on_ws_command w)) (inbound_of f) b).store
          ≡ after_broadcast w b.push_enabled b.awaits
              (apply_optimistic (pos c.0) (map pos c.1) b.store).0)
unfolding handle_inbound inbound_of
command_for-queued read k e v c up taken key f w b at valid h took room =
    let (address, bytes) = sent-frame up taken _ _ key f took in
    let good = command_for-IsWrite read k e v c at valid h in
    let intent =
      ap (λ a. intent_of (number a) (items (map int f.bytes))) address
      ∙ (ap (λ d. intent_of (number (pos c.0)) (items (map int d))) bytes ∙ write-intent c good) in
    queued w _ (pos c.0, map pos c.1) b _ intent room
      (admission w (number f.address) (items (map int f.bytes)) b)
