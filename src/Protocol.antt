-- ===== src/Protocol.antt =====
-- src/vm/protocol.rs: the framing protocol between host and guest agent, and its JSON.
pub mod Io
pub mod Frame
pub mod Nonce
pub mod Json
pub mod Request
pub mod Control
mod Tests
