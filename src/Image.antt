-- ===== src/Image.antt =====
-- src/main.rs: the Personalized developer disk image, downloaded, cached and mounted.
pub mod Disk
pub mod Download
pub mod Cache
pub mod Publish
pub mod Mount
mod Tests
