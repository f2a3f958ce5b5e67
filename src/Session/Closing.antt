-- ===== src/Session/Closing.antt =====
-- The end of `run_session` in runtime/session.rs: the wait for the host to close the stream.
mod Defs
pub mod Closed
unfoldable pub use Defs.*
