-- ===== src/Tests/Integration.antt =====
-- The cooldown and the connection state of custom_components/rocket_r60v at concrete inputs.
use r60v_home_assistant.Base.{none, ◌≡◌, refl, ◌↔◌, true, false, some, List, [], ◌∷◌, arith}
use r60v_home_assistant.Base.Int.{pos}
use r60v_home_assistant.Wedge.{cooldown_steps_default, resume_after_probes_default}
use r60v_home_assistant.Wedge
use r60v_home_assistant.Integration.Snapshot.{blank}
use r60v_home_assistant.Integration.BridgeHealth.{report}
use r60v_home_assistant.Integration.Coordinator.{
  Coordinator, in_cooldown, cooldown_remaining, enter_cooldown, connection_state, connected,
  machine_unavailable, bridge_recovering,
}
use r60v_home_assistant.Integration.Coordinator
use r60v_home_assistant.Integration.Connection.{LinkClear, Rested, Reachable, connected_iff}
use r60v_home_assistant.Integration.Mirror.{
  Move, begin, probe, bridge_after, mirror_after, mirrored,
}

-- A stream that says the machine is off, and a bridge that is recovering its link.
abbrev streamed : Coordinator
streamed = record (Coordinator.init true true none) {
  data_now = some (record blank { available = false });
}

abbrev recovering : Coordinator
recovering = record streamed {
  bridge = some (record (report true) { schema = some (pos 1); diagnostic_window = true });
}

streamed_state : connection_state 0 streamed ≡ machine_unavailable
unfolding connection_state Coordinator.init
streamed_state = refl

recovering_state : connection_state 0 recovering ≡ bridge_recovering
unfolding connection_state Coordinator.init
recovering_state = refl

-- A minute into the first cooldown.
four_minutes : cooldown_remaining 60000 (enter_cooldown 0 streamed) ≡ 240
unfolding cooldown_remaining enter_cooldown Wedge.step_at Coordinator.init
four_minutes = refl

-- A cooldown, a probe after it, and one more that comes too early to be made.
abbrev moves : List Move
moves = begin 1000 ∷ probe 400000 ∷ begin 500000 ∷ probe 600000 ∷ []

mirrored_example :
    (Wedge.in_cooldown 700000
        (bridge_after moves (Wedge.init 45000 cooldown_steps_default resume_after_probes_default))
      ≡ in_cooldown 700000 (mirror_after moves (Coordinator.init false true none)))
    × ((bridge_after moves
          (Wedge.init 45000 cooldown_steps_default resume_after_probes_default)).cooldown_index
        ≡ (mirror_after moves (Coordinator.init false true none)).cooldown_index)
    × ((bridge_after moves
          (Wedge.init 45000 cooldown_steps_default resume_after_probes_default)).probe_successes
        ≡ (mirror_after moves (Coordinator.init false true none)).probe_successes)
mirrored_example =
    mirrored moves 45000 700000 false true none
      (omega arith, (omega arith, (omega arith, (omega arith, omega arith))))

connected_iff_example : (connection_state 5 streamed ≡ connected) ↔ (
    LinkClear streamed.bridge
    × Rested 5 streamed.cooldown_until
    × (streamed.last_update_success ≡ true)
    × Reachable streamed.push_enabled streamed.data_now)
connected_iff_example = connected_iff 5 streamed
