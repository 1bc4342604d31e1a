-- ===== src/Runtime/Bundle.antt =====
-- crates/runtime/src/bundle.rs: from an image's config and a request to the runtime specification.
pub mod Request
pub mod Spec
pub mod Capabilities
pub mod ProcessArgs
pub mod Namespaces
pub mod Mounts
pub mod Limits
pub mod Security
pub mod Generate
