-- ===== src/Scheduler.antt =====
-- internal/server/api/scheduler.go: the schedules of scans.
pub mod Cron
pub mod Next
pub mod Tick
mod Tests
