-- ===== src/Tests.antt =====
-- Runs of the models at concrete inputs.
mod Protocol
mod State
mod Store
mod Wedge
mod Governor
mod Broker
mod Client
mod Emulator
mod Frontend
mod Integration
mod Entities
mod Update
mod LocalClient
mod Push
mod Timer
mod Mqtt
