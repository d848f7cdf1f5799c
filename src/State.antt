-- ===== src/State.antt =====
-- The snapshot of the machine's memory (bridge/r60v_broker/state.py).
pub mod Snapshot
pub mod Select
pub mod Entities
