-- ===== src/Collection.antt =====
-- internal/collection: periodic collection over all channels, and the import of keys.
pub mod Schedule
pub mod Service
pub mod Runner
pub mod Import
pub mod Provision
