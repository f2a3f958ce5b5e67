-- ===== src/Tests.antt =====
-- The theorems at concrete inputs.
mod Data
mod Texts
mod Senders
mod Waits
mod Sessions
mod Hosts
mod Openings
mod Transfers
mod Jobs
mod Parents
mod Stores
mod Logs
mod Addresses
mod Launches
