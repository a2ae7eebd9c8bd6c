-- ===== src/Witnesses.antt =====
-- Runs of the theorems at concrete inputs, and tests of the definitions.
mod Schedule
mod Service
mod KeyQueue
mod Sync
mod Collectability
mod Merge
mod Runner
mod Provision
mod Store
mod Confirm
mod Pacing
mod Paging
mod Config
