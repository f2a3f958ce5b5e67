-- ===== src/Host/Transfer.antt =====
-- The chunks of `store_artifact` in runtime/host.rs.
mod Defs
pub mod Pieces
pub mod Selected
pub mod Whole
pub mod Live
unfoldable pub use Defs.*
