-- ===== src/Wire.antt =====
-- The byte level that every payload of crates/server/src/ipc.rs stands on.
pub mod Bytes
pub mod Reader
