-- ===== src/Host/Request.antt =====
-- `ActionContext::request` in runtime/host.rs.
mod Defs
pub mod Asked
pub mod Dropped
unfoldable pub use Defs.*
