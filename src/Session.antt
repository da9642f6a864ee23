-- ===== src/Session.antt =====
-- src/main.rs: sessions with the device, how they are opened, and how they are opened again.
pub mod Errors
pub mod Event
pub mod Device
pub mod System
pub mod App
pub mod Args
pub mod Provider
pub mod Connect
pub mod Reconnect
pub mod Pairing
pub mod Provision
pub mod Whole
