-- ===== src/Collector.antt =====
-- internal/collector: the contract of the site adapters, and one synchronisation of a channel.
pub mod Errors
pub mod Pacing
pub mod Paging
pub mod Auth
pub mod Contract
pub mod Keys
pub mod Sync
pub mod Registry
pub mod Merge
pub mod Closures
