-- ===== src/Host/Output.antt =====
-- `StoredArtifact` and `ActionResult` of runtime/host.rs.
mod Defs
pub mod Wire
unfoldable pub use Defs.*
