-- ===== src/Protocol.antt =====
-- rust/src/protocol.rs: the frames and control messages of the wire protocol.
pub mod Codes
pub mod Kinds
pub mod Capabilities
pub mod StreamMask
pub mod FilterMask
pub mod Header
pub mod Dictionary
pub mod Hello
pub mod Challenge
pub mod Prove
pub mod HelloAck
pub mod ErrorMessage
pub mod Lag
pub mod FilterAck
pub mod Totality
pub mod Layouts
