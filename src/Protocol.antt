-- ===== src/Protocol.antt =====
-- src/transport/protocol.rs
pub mod Types
pub mod Codes
pub mod Message
pub mod Fields
pub mod RoundTrip
pub mod NewMessage
pub mod Canonical
pub mod Decode
mod Tests
