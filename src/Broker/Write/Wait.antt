-- ===== src/Broker/Write/Wait.antt =====
-- The wait for the end of a cooldown.
use r60v_home_assistant.Broker.{Broker}
