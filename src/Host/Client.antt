-- ===== src/Host/Client.antt =====
-- runtime/host/client.rs: requests to the host and the answers that are routed back to them.
mod Defs
pub mod Routes
unfoldable pub use Defs.*
