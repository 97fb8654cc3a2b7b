-- ===== src/Client.antt =====
-- rust/src/client.rs: the subscriber client.
pub mod Wire
pub mod Json
pub mod Session
pub mod Config
pub mod Connect
pub mod Opening
