-- ===== src/Protocol.antt =====
-- The generated protobuf messages that the runtime reads and writes (proto/oll/*.proto). A sub-message
-- is an `Option`, a `oneof` a data type under `Option`, an open enum an i32, `bytes` a list of numbers.
mod Common
mod Config
mod Calls
mod Envelope
pub use Common.*
pub use Config.*
pub use Calls.*
pub use Envelope.*
