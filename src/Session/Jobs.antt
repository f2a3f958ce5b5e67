-- ===== src/Session/Jobs.antt =====
-- runtime/session/jobs.rs: the jobs of one session.
mod Errors
mod Defs
mod Ops
pub mod Updates
pub mod Polling
pub mod Frames
pub mod Starting
pub mod Consistency
pub mod Sure
pub mod Cancelling
pub mod Settling
pub mod Reached
pub mod Says
pub mod Closings
pub mod Admission
pub mod Contract
pub mod Refines
unfoldable pub use Errors.*
unfoldable pub use Defs.*
unfoldable pub use Ops.*
