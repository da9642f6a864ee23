-- ===== src/Startup.antt =====
-- src/main.rs: `main` up to the loop over the input, for both transports.
pub mod Report
pub mod Wireless
pub mod Wired
pub mod Launch
mod Tests
