-- ===== src/Cron.antt =====
-- src/cron: jobs on a schedule; their store, their timers, the runs that they start, and the run
-- log.
pub mod Store
pub mod Service
pub mod Runs
pub mod RunLog
