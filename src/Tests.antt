-- ===== src/Tests.antt =====
-- Runs on concrete input.
pub mod Messages
pub mod Transactions
pub mod Sessions
pub mod Connections
pub mod Pins
pub mod Caches
pub mod Reconnections
pub mod Reads
pub mod Openings
pub mod Prunes
