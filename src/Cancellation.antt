-- ===== src/Cancellation.antt =====
-- runtime/cancellation.rs: the atomic state of one action, and the futures that wait for its end.
mod Defs
pub mod Requests
pub mod Waiting
pub mod Wakeup
unfoldable pub use Defs.*
