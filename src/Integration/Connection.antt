-- ===== src/Integration/Connection.antt =====
-- What the connection state of the coordinator tells (custom_components/rocket_r60v/coordinator.py).
use r60v_home_assistant.Base.{ℕ, ◌≤◌, ◌≡◌, ◌↔◌, ◌⊎◌, Bool, true, false, Option, none, some, arith}
use r60v_home_assistant.Integration.Snapshot.{StateSnapshot}
use r60v_home_assistant.Integration.BridgeHealth.{BridgeHealth, usable, blocking}
use r60v_home_assistant.Integration.Coordinator.{
  Coordinator, connected, in_cooldown, bridge_blocking, connection_state,
}

-- No report says that the link is down or being recovered, or the report is not to be relied on.
abbrev pub LinkClear : Option BridgeHealth → Type 0
LinkClear none = Unit
LinkClear (some b) = (usable b ≡ false) ⊎ ((b.diagnostic_window ≡ false) × (b.link_up ≡ true))

-- The last cooldown is over.
abbrev pub Rested : ℕ → Option ℕ → Type 0
Rested now none = Unit
Rested now (some end) = end ≤ now

-- What is streamed says that the machine is reachable.
abbrev pub Reachable : Bool → Option StateSnapshot → Type 0
Reachable false snapshot = Unit
Reachable true none = Unit
Reachable true (some snapshot) = snapshot.available ≡ true

blocking_iff : (c : Coordinator) → (bridge_blocking c ≡ false) ↔ LinkClear c.bridge
unfolding bridge_blocking blocking
blocking_iff c = ground arith

-- The diagnostic reads `connected` exactly when no usable report finds fault with the link, no
-- cooldown is on, the last update succeeded, and a stream, if there is one, says that the machine is
-- reachable.
pub connected_iff :
    (now : ℕ) (c : Coordinator)
    → (connection_state now c ≡ connected) ↔ (
        LinkClear c.bridge
        × Rested now c.cooldown_until
        × (c.last_update_success ≡ true)
        × Reachable c.push_enabled c.data_now)
unfolding connection_state in_cooldown
connected_iff now c = ground (arith, blocking_iff c)
