-- ===== src/Jobs.antt =====
-- Background jobs: backend/domain/jobs.py and backend/worker/tasks.py.
pub mod State
pub mod Idempotency
pub mod Service
pub mod Outbox
pub mod Enqueue
pub mod Worker
pub mod Rows
pub mod Effects
pub mod Runs
pub mod Attempts
pub mod Dispatch
pub mod Stored
pub mod Once
pub mod Success
mod Tests
