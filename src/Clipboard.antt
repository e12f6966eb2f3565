-- ===== src/Clipboard.antt =====
-- src/transport/clipboard.rs: clipboard texts between peers, their order and their replay.
pub mod State
pub mod Fields
pub mod Wire
pub mod Step
pub mod Replay
pub mod Send
mod Tests
