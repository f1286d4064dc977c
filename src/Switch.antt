-- ===== src/Switch.antt =====
-- examples/switch: the OpenFlow 1.0 demonstration switch. Each module names the file it models.
pub mod Ofpfw
pub mod Match
pub mod Packets
pub mod Extract
pub mod Flow
pub mod State
pub mod Datapath
pub mod Device
pub mod Main
pub mod Tests
