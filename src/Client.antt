-- ===== src/Client.antt =====
-- include/cercall/client.h
mod State
mod Sending
mod Receiving
mod Connection
pub mod History
pub mod Waits
pub mod Bounds
pub mod Calls
pub mod Answers
pub mod Drains
pub mod Opens
pub mod Events
unfoldable pub use State.*
unfoldable pub use Sending.*
unfoldable pub use Receiving.*
unfoldable pub use Connection.*
