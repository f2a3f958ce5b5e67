-- ===== src/Host/Artifact.antt =====
-- runtime/host/artifact.rs: the descriptor of an artifact and the plan of its transfer.
mod Defs
pub mod Plan
pub mod Descriptor
unfoldable pub use Defs.*
