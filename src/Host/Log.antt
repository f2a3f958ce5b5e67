-- ===== src/Host/Log.antt =====
-- `ActionContext::log` in runtime/host.rs.
mod Defs
pub mod Logged
unfoldable pub use Defs.*
