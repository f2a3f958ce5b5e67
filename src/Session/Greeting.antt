-- ===== src/Session/Greeting.antt =====
-- The second half of the handshake of `run_session` in runtime/session.rs.
mod Defs
pub mod Greeted
unfoldable pub use Defs.*
