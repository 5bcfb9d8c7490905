-- ===== src/Cron.antt =====
-- Scheduled jobs: backend/runtime/cron.py.
pub mod Scheduler
pub mod Rows
pub mod Minute
mod Tests
