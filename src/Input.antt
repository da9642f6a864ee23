-- ===== src/Input.antt =====
-- src/main.rs: the frames that the desktop sends, and the loop that turns them into reports.
pub mod Message
pub mod Slots
pub mod Touch
pub mod Keyboard
pub mod Clipboard
pub mod State
pub mod Recovery
pub mod Handlers
pub mod Loop
mod Tests
