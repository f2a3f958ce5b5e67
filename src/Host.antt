-- ===== src/Host.antt =====
-- runtime/host.rs and the files of runtime/host/: what an action may ask of the host and return to it.
pub mod Output
pub mod Client
pub mod Call
pub mod Artifact
pub mod Context
pub mod Transfer
pub mod Source
pub mod Request
pub mod Calls
pub mod Log
pub mod Store
