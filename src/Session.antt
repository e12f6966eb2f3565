-- ===== src/Session.antt =====
-- src/transport/session.rs: what two peers offer each other, and what they agree on.
pub mod Types
pub mod Negotiate
pub mod Limits
pub mod Agreement
pub mod Capabilities
pub mod Check
pub mod Accepted
mod Tests
