-- ===== src/Metadata.antt =====
-- crates/metadata: the persistent records and their store.
pub mod Records
pub mod Store
