-- ===== src/Integration.antt =====
-- The Home Assistant integration under custom_components/rocket_r60v.
pub mod Snapshot
pub mod BridgeHealth
pub mod Coordinator
pub mod Connection
pub mod Mirror
pub mod Entities
pub mod Profile
pub mod Registry
pub mod Climate
pub mod Update
pub mod Stream
pub mod Frames
pub mod Client
pub mod Timer
pub mod Clock
pub mod Diagnostics
