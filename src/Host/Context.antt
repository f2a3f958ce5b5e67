-- ===== src/Host/Context.antt =====
-- runtime/host.rs: what the calls that an action makes of the host check before their request and after it.
mod Defs
pub mod Calls
unfoldable pub use Defs.*
