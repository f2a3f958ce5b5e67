-- ===== src/Host/Calls.antt =====
-- The host calls of an `ActionContext` in runtime/host.rs, from their checks to their results.
mod Defs
pub mod Answered
pub mod Configured
unfoldable pub use Defs.*
