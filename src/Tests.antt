-- ===== src/Tests.antt =====
-- Runs of the theorems at concrete inputs, one file for each part of the program.
pub mod Codec
pub mod Setup
pub mod BoostMessages
pub mod Calls
pub mod Clients
pub mod Clocks
pub mod ClockCalls
pub mod Fixtures
pub mod Messages
pub mod Queues
pub mod Runs
pub mod Services
pub mod Transports
