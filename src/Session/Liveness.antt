-- ===== src/Session/Liveness.antt =====
-- session/liveness.rs: the watch on the parent's pipe, and how it ends.
pub mod Defs
pub mod Ends
pub mod Reports
pub mod Dropping
unfoldable pub use Defs.*
