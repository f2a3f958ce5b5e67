-- ===== src/Validation.antt =====
-- runtime/validation.rs: what the peer, the environment and the plugin's author may send.
mod Bytes
mod Defs
pub mod Address
pub mod Endpoint
pub mod Loopback
pub mod Labels
pub mod PluginId
pub mod Uuid
unfoldable pub use Bytes.*
unfoldable pub use Defs.*
