-- ===== src/Mux.antt =====
-- src/raw_usbmux.rs: the usbmux transport over raw USB packets.
pub mod State
pub mod Serial
pub mod Packet
pub mod Tcp
pub mod Feed
pub mod Open
pub mod Bridge
pub mod Plist
pub mod Frame
pub mod Client
mod Tests
