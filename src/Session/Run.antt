-- ===== src/Session/Run.antt =====
-- `run_session` and `run` in runtime/session.rs.
mod Defs
pub mod Calm
pub mod Numbered
pub mod Whole
unfoldable pub use Defs.*
