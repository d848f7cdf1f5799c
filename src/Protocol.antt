-- ===== src/Protocol.antt =====
-- The wire protocol (bridge/r60v_broker/protocol.py): the hexadecimal numbers of the frames, the
-- frames, and what the code promises of them.
pub mod Address
pub mod Text
pub mod Hex
pub mod Frame
pub mod RoundTrip
pub mod Corruption
