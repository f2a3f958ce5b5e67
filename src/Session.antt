-- ===== src/Session.antt =====
-- runtime/session.rs and the files of runtime/session/.
pub mod Jobs
pub mod Envelope
pub mod Serve
pub mod Steady
pub mod Dispatching
pub mod Safety
pub mod Ordering
pub mod Ordered
pub mod Farewell
pub mod Handshake
pub mod Opening
pub mod Liveness
pub mod Greeting
pub mod Closing
pub mod Run
pub mod Launch
pub mod Ending
pub mod Reaching
