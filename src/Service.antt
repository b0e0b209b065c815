-- ===== src/Service.antt =====
-- include/cercall/service.h
mod State
mod Dispatch
mod Functions
mod Clients
pub mod History
pub mod Pending
pub mod Keeps
pub mod Single
pub mod Runs
pub mod Answers
pub mod Twice
pub mod Broadcasts
pub mod Stops
pub mod Accepts
pub mod Served
pub mod Closings
pub mod Receives
pub mod Reached
unfoldable pub use State.*
unfoldable pub use Dispatch.*
unfoldable pub use Functions.*
unfoldable pub use Clients.*
