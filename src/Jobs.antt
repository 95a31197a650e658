-- ===== src/Jobs.antt =====
-- The investigation job queue: apps/api/app/jobs.
pub mod State
pub mod Dispatcher
pub mod Resilience
pub mod Postgres
