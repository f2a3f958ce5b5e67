-- ===== src/Host/Store.antt =====
-- `ActionContext::store_artifact` in runtime/host.rs.
mod Defs
pub mod Answers
pub mod Stored
pub mod Confirmed
unfoldable pub use Defs.*
