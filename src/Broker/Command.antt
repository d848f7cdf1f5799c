-- ===== src/Broker/Command.antt =====
-- The MQTT command path of the broker: `_apply_command`. What the registries of state.py make of a
-- key and a payload comes in as an argument: it is `resolve` of State/Entities/Resolve.antt.
use r60v_home_assistant.Base.{List}
use r60v_home_assistant.Base.Int.{ℤ, pos}
use r60v_home_assistant.Base.Results.{Result, ok, err}
use r60v_home_assistant.Protocol.Address.{settings_base, settings_len}
use r60v_home_assistant.Store.{update_settings, note_success, note_failure, interpolate_live_temps}
use r60v_home_assistant.Governor.{Fault, connection, other}
use r60v_home_assistant.Broker.{
  Broker, World, now, await, Task, ◌>>=◌, ◌>>◌, governor_read, governor_write, on_store, doing,
}

-- No writable entity has the key; its encoder raises a `ValueError`, or another exception, which is
-- not caught; or it gives a write.
pub data Resolution : Type 0 where
  unknown rejected raises : Resolution
  writes_to : ℤ → List ℤ → Resolution

-- What publishing does to the store; the texts go to the MQTT bridge.
publish : World → Broker → Broker
publish w b = on_store (interpolate_live_temps (now w b)) b

-- The body of the second `try`.
write_and_read : World → ℤ → List ℤ → Task (Unit {0})
unfolding publish ◌>>=◌ ◌>>◌ await
write_and_read w address bytes = do
  _ ← governor_write w address bytes
  settings ← governor_read w (pos settings_base) (pos settings_len)
  doing (on_store (update_settings settings))
  doing (on_store note_success)
  doing (publish w)

-- `except R60VConnectionError`; anything else ends the command loop.
caught : Broker × Result Fault (Unit {0}) → Broker × Result Fault (Unit {0})
caught (b, ok _) = (b, ok tt)
caught (b, err connection) = (on_store note_failure b, ok tt)
caught (b, err other) = (b, err other)

unfoldable pub apply_command : World → Resolution → Task (Unit {0})
unfolding write_and_read caught
apply_command w unknown b = (b, ok tt)
apply_command w rejected b = (b, ok tt)
apply_command w raises b = (b, err other)
apply_command w (writes_to address bytes) b = caught (write_and_read w address bytes b)
