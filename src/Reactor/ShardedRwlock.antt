-- ===== src/Reactor/ShardedRwlock.antt =====
-- src/reactor/sharded_rwlock.rs: the reader-writer lock of shards.
pub mod Machine
pub mod Counts
pub mod Exclusion
pub mod Indices
pub mod Distinct
pub mod Size
pub mod Value
pub mod Atomic
pub mod LastShard
pub mod Refines
pub mod Progress
