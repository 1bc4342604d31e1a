-- ===== src/Cri.antt =====
-- crates/cri: the CRI server crate.
pub mod Spdy
pub mod Reconcile
pub mod Service
pub mod Convert
pub mod Containers
pub mod Sandboxes
pub mod Creation
pub mod Answers
pub mod References
pub mod ImageService
pub mod Locks
pub mod Sessions
