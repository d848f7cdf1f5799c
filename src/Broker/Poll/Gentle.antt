-- ===== src/Broker/Poll/Gentle.antt =====
-- What a turn of the poll loop asks of the machine while it recovers.
use r60v_home_assistant.Base.{
  ℕ, ◌≡◌, refl, ap, ◌∙◌, Bool, true, false, List, [], ◌∷◌, ◌++◌, append_assoc, arith, if◌then◌else◌,
}
use r60v_home_assistant.Base.Int.{ℤ, pos}
use r60v_home_assistant.Base.Results.{Result, ok, err, is_ok}
use r60v_home_assistant.Protocol.Address.{settings_base, settings_len}
use r60v_home_assistant.Wedge.{WedgeRecovery, in_cooldown, awaiting_probe}
use r60v_home_assistant.Governor.{Fault}
use r60v_home_assistant.Store.{update_settings}
use r60v_home_assistant.Wedge.{record_probe_success}
use r60v_home_assistant.Broker.{Action, reads, closes, Broker, World, now, await, on_store}
use r60v_home_assistant.Broker.Poll.{
  rest_device, confirmed, after_probe, link_probed, probe_link, probe, touch_device,
}

confirmed-log : (b : Broker) (r : WedgeRecovery × Bool) → (confirmed b r).log ≡ b.log
unfolding confirmed
confirmed-log b (v, true) = refl
confirmed-log b (v, false) = refl

-- What a probe asks for, by whether its read was answered.
abbrev pub probe_actions : Bool → List Action
probe_actions answered =
    reads (pos settings_base) (pos settings_len) ∷ (if answered then [] else closes ∷ [])

probed-log :
    (w : World) (b : Broker) (log : List Action) (r : Result Fault (List ℤ))
    → b.log ≡ log ++ reads (pos settings_base) (pos settings_len) ∷ []
    → (after_probe w (link_probed (b, r))).log ≡ log ++ probe_actions (is_ok r)
unfolding after_probe link_probed rest_device await
probed-log w b log (ok bytes) h =
    confirmed-log (on_store (update_settings bytes) b) (record_probe_success (now w b) b.wedge) ∙ h
probed-log w b log (err f) h = ap (λ l. l ++ closes ∷ []) h ∙ append_assoc log _ _

not_cooling : (n : ℕ) (v : WedgeRecovery) → awaiting_probe n v ≡ true → in_cooldown n v ≡ false
unfolding awaiting_probe in_cooldown
not_cooling n v h = ground arith

-- While the cooldown runs, the turn asks only for the link to be closed, and leaves the wedge state
-- to the others.
cooldown-closes :
    (w : World) (read_settings : Bool) (b : Broker)
    → in_cooldown (now w b) b.wedge ≡ true
    → ((touch_device w read_settings b).log ≡ b.log ++ closes ∷ [])
      × ((touch_device w read_settings b).wedge ≡ w.wedge_meanwhile b.awaits b.wedge)
unfolding touch_device await
cooldown-closes w read_settings b h = rw h (refl, refl)

-- When a probe is due the turn makes one read of the settings, and no other request; it closes the
-- link again if that read fails.
pub probe-gentle :
    (w : World) (read_settings : Bool) (b : Broker)
    → awaiting_probe (now w b) b.wedge ≡ true
    → (touch_device w read_settings b).log ≡ b.log ++ probe_actions (is_ok (w.read_reply b.awaits))
unfolding touch_device probe probe_link await
probe-gentle w read_settings b h =
    let e = not_cooling (now w b) b.wedge h in
    rw e (
      rw h (
        probed-log w (await w (reads (pos settings_base) (pos settings_len)) b) b.log
          (w.read_reply b.awaits) refl))
