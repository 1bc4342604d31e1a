-- ===== src/Images.antt =====
-- crates/images: pulls, credentials, the identity of images, and the reclaiming of what they
-- leave behind.
pub mod Identity
pub mod Gc
pub mod Hosts
pub mod Credentials
pub mod Pull
