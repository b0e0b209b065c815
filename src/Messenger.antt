-- ===== src/Messenger.antt =====
-- include/cercall/details/messenger.h
mod Header
mod Reading
mod Writing
pub mod Bounds
pub mod Framing
pub mod Stream
pub mod Delivery
pub mod Keeps
unfoldable pub use Header.*
unfoldable pub use Reading.*
unfoldable pub use Writing.*
