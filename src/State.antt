-- ===== src/State.antt =====
-- device_agent/state: the command journal and the placement cache.
pub mod Journal
pub mod Placement
