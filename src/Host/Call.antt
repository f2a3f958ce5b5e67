-- ===== src/Host/Call.antt =====
-- runtime/host/call.rs: which host calls may be made, and which answers they may get.
mod Defs
pub mod Answers
unfoldable pub use Defs.*
