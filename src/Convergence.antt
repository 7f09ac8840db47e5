-- ===== src/Convergence.antt =====
-- internal/replication/model.go: the deterministic convergence model of the replication protocol.
-- A `Node` is two Go maps; here each is a list of entries with one entry for each key.
pub mod Ids
pub mod Node
pub mod Step
pub mod Merge
pub mod Order
pub mod Cursor
pub mod Snapshot
pub mod Restore
mod Tests
