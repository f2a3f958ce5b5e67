-- ===== src/Value.antt =====
-- runtime/value.rs: which structured values may be stored, logged or passed to configuration functions.
pub mod Domain
mod Defs
pub mod Shape
pub mod Total
unfoldable pub use Defs.*
