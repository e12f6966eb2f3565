-- ===== src/Input.antt =====
-- src/transport/input.rs: mouse movements in datagrams, and reliable key, button and wheel events.
pub mod Types
pub mod Event
pub mod Mouse
pub mod Receiver
pub mod EventLaws
pub mod EventSafety
pub mod Buttons
pub mod Pressed
pub mod Release
mod Tests
