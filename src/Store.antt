-- ===== src/Store.antt =====
-- internal/store: the operations on the database.
pub mod Op
pub mod Keeps
pub mod Fails
pub mod Ensures
pub mod Tables
pub mod Authority
pub mod Queue
pub mod Snapshot
pub mod Schedules
pub mod Attention
pub mod Login
pub mod Replication
pub mod Actions
pub mod Notifications
pub mod Admin
pub mod Agents
pub mod Slash
