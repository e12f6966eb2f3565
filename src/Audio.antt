-- ===== src/Audio.antt =====
-- src/transport/audio_datagram.rs: audio packets as datagrams, and the jitter buffer.
pub mod Types
pub mod Datagram
pub mod Jitter
pub mod Room
pub mod Push
pub mod Run
pub mod RoundTrip
pub mod Verdict
pub mod Span
pub mod Answer
pub mod Playout
pub mod Stored
mod Tests
