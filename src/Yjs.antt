-- ===== src/Yjs.antt =====
-- src/yjs: the documents that members edit together, in memory and stored.
pub mod Documents
pub mod Stores
pub mod Manager
pub mod Presence
