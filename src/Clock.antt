-- ===== src/Clock.antt =====
-- examples/cerclock: a clock that serves its time, alarms and ticks, and a client of it.
mod State
mod Functions
mod Timers
pub mod Dispatch
pub mod Alarms
pub mod Steps
pub mod Sound
pub mod Reachable
pub mod Calls
pub mod Client
pub mod Ticks
pub mod Expiry
unfoldable pub use State.*
unfoldable pub use Functions.*
unfoldable pub use Timers.*
