-- ===== src/Host/Source.antt =====
-- The validation of an artifact's source in host/artifact.rs.
pub mod Defs
pub mod Reading
pub mod Checked
unfoldable pub use Defs.*
