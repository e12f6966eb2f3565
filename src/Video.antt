-- ===== src/Video.antt =====
-- src/transport/video_datagram.rs: video frames as fragments, and their reassembly.
pub mod Types
pub mod Fragment
pub mod Reassembler
pub mod Settle
pub mod Push
pub mod Valid
pub mod Place
pub mod Obsolete
pub mod Slots
pub mod Safe
pub mod Settled
pub mod Accepted
pub mod Opened
pub mod Total
pub mod Run
pub mod Delivery
pub mod Exact
pub mod RoundTrip
pub mod Chunks
pub mod Sent
pub mod Original
mod Tests
