-- ===== src/Storage.antt =====
-- taskturbine-core/src/storage.rs: the methods of Storage, one module for each group.
pub mod Rows
pub mod Claim
pub mod Finish
pub mod Fail
pub mod Spawn
pub mod Event
pub mod Upkeep
pub mod Atomic
pub mod Complete
pub mod Invariant
pub mod Calls
pub mod History
pub mod Retry
pub mod Exclusive
pub mod Idempotent
pub mod Waking
pub mod Stale
pub mod Cancel
pub mod Cleanup
pub mod Lifecycle
pub mod Live
pub mod Expired
pub mod Helpers
pub mod Kept
pub mod Effects
