-- ===== src/Scheduler.antt =====
-- The scheduler (src/plugins/scheduler): locks in the database, and the tasks run under them.
pub mod LockTable
pub mod LockService
pub mod Service
pub mod Inactivity
mod Fixtures
mod Tests
