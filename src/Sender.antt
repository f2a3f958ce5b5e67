-- ===== src/Sender.antt =====
-- runtime/sender.rs: the one ordered way out. The lock makes each `enqueue` atomic. The bounded tokio
-- channel is a parameter, read through `accepts` and `consumes`, functions of what was sent before.
mod Defs
pub mod Order
pub mod Effect
unfoldable pub use Defs.*
