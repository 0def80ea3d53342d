-- ===== src/Tests.antt =====
-- Runs of the agent in a small concrete world, and the theorems at concrete inputs.
pub mod World
pub mod State
pub mod Clients
pub mod Commands
pub mod Sessions
pub mod Streams
pub mod Startup
pub mod Refusals
pub mod Process
