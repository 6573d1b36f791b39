-- ===== src/StorageEngine.antt =====
-- src/StorageEngine.h and src/StorageEngine.cpp: the engine, as a state with actions that may throw.
-- What an action did before it threw stays done. An engine here is one that has been opened.
pub mod State
pub mod Opening
pub mod Snapshot
pub mod Access
pub mod Segments
pub mod Snapshots
pub mod Operations
pub mod Answers
pub mod Sessions
pub mod Map
pub mod Settling
pub mod Renumbering
pub mod IndexFiles
pub mod Persistence
pub mod Surviving
pub mod Reopening
pub mod Durability
pub mod Losing
pub mod Halting
pub mod Reading
pub mod Responding
pub mod Threads
pub mod Tracking
pub mod Playing
pub mod Linearizing
pub mod Handling
pub mod Invariant
