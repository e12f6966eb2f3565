-- ===== src/Recovery.antt =====
-- src/transport/recovery.rs: what is done on a disconnect, and when to connect again.
pub mod State
pub mod Delays
mod Tests
