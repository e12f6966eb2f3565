-- ===== src/FileTransfer.antt =====
-- src/transport/file_transfer.rs: file metadata, chunks and cancellation, and the receiving side.
pub mod Types
pub mod Wire
pub mod Receiver
pub mod Chunk
pub mod Fields
pub mod Metadata
pub mod Transfer
pub mod Placed
pub mod Finish
mod Tests
