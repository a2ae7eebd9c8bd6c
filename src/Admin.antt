-- ===== src/Admin.antt =====
-- internal/admin: the background queue of key imports, and the verdict on automatic collection.
pub mod KeyQueue
pub mod Collectability
pub mod KeyProvision
pub mod Confirm
pub mod ConfigApply
