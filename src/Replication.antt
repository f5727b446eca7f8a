-- ===== src/Replication.antt =====
-- internal/replication: the retention of runs, and the manager with its in-memory store and locker.
pub mod Retention
pub mod Store
pub mod Manager
