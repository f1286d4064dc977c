-- ===== src/Multicast.antt =====
-- examples/controller/mc-agent: the multicast membership agent. Each module names the file it models.
pub mod Types
pub mod Context
pub mod Membership
pub mod Command
pub mod Callback
pub mod Tests
