-- ===== src/Tests/Update.antt =====
-- Updates of the coordinator of custom_components/rocket_r60v in concrete worlds.
use r60v_home_assistant.Base.{◌+◌, ◌*◌, ◌≡◌, refl, inr, true, false, none, some, [], ◌∷◌, arith}
use r60v_home_assistant.Base.Results.{ok, err}
use r60v_home_assistant.Integration.Snapshot.{blank}
use r60v_home_assistant.Integration.Coordinator.{
  Coordinator, in_cooldown, enter_cooldown, bridge_blocking,
}
use r60v_home_assistant.Integration.Coordinator
use r60v_home_assistant.Wedge.{step_at}
use r60v_home_assistant.Integration.Update.{
  World, Run, Failure, read_failed, closes, writes, commands, lost, now, update_data,
  refresh_bridge_health, seed, async_write,
}
use r60v_home_assistant.Integration.Update.Rest.{meanwhile_if, push-thin, update_data-Rests}
use r60v_home_assistant.Integration.Update.Tolerance.{after_updates, Dead, Polling, outage}

-- Nothing answers, and the other tasks do nothing.
abbrev dead_world : World
dead_world = record {
  clock = λ n. n * 1000;
  health_enabled = false;
  health = λ n. none;
  link_up = λ n. true;
  read_reply = λ n. err lost;
  write_reply = λ n. ok tt;
  command_reply = λ n. err lost;
  meanwhile = λ n c. c;
}

abbrev started : Run
started = record { coordinator = Coordinator.init false true (some blank); log = []; awaits = 0 }

abbrev streaming : Run
streaming = record { coordinator = Coordinator.init true true none; log = []; awaits = 0 }

abbrev cooling_down : Run
cooling_down = record started { coordinator = enter_cooldown 0 (started.coordinator) }

dead_world-Dead : Dead dead_world
dead_world-Dead = record { no_health = refl; silent = λ n. refl; quiet = λ n c. refl }

started-Polling : Polling started.coordinator blank
unfolding Coordinator.init
started-Polling = record {
  polls = refl;
  has_data = refl;
  no_report = refl;
  no_cooldown = refl;
  fresh = refl;
}

outage_example :
    ((update_data dead_world (after_updates 5 dead_world started)).1 ≡ err read_failed)
    × ((update_data dead_world (after_updates 5 dead_world started)).0.coordinator.cooldown_until
        ≡ some (
            now dead_world (update_data dead_world (after_updates 5 dead_world started)).0
            + 300000))
outage_example =
    outage 5 dead_world started blank dead_world-Dead started-Polling
      (unfold Coordinator.init in refl) (omega arith)

streaming_thin :
    ((update_data dead_world streaming).0.log ≡ [])
    × ((update_data dead_world streaming).1
        ≡ ok (seed (refresh_bridge_health dead_world streaming).coordinator.data_now))
streaming_thin = push-thin dead_world streaming (unfold Coordinator.init in refl)

update_data-Rests_example :
    ((update_data dead_world cooling_down).0.log ≡ closes ∷ [])
    × ((update_data dead_world cooling_down).0.coordinator
        ≡ meanwhile_if true dead_world (refresh_bridge_health dead_world cooling_down))
    × ((failure : Failure) × ((update_data dead_world cooling_down).1 ≡ err failure))
unfolding refresh_bridge_health enter_cooldown Coordinator.init in_cooldown step_at
update_data-Rests_example = update_data-Rests dead_world cooling_down refl (inr refl)

-- A command that the stream does not take is written through the front end, with no refresh.
fallen_back :
    (async_write dead_world true 0x4A (1 ∷ []) streaming).0.log
    ≡ commands 0x4A (1 ∷ []) ∷ writes 0x4A (1 ∷ []) ∷ []
unfolding async_write Coordinator.init
fallen_back = refl
