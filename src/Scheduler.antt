-- ===== src/Scheduler.antt =====
-- internal/host/scheduler: cron expressions, snapshot retention, and the manager that ticks over both.
pub mod Cron
pub mod Retention
pub mod SnapTime
pub mod Manager
