-- ===== src/Session/Launch.antt =====
-- `run` of runtime/session.rs and `Plugin::run` of runtime/plugin.rs.
mod Defs
pub mod Ends
unfoldable pub use Defs.*
