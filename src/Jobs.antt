-- ===== src/Jobs.antt =====
-- The scheduled jobs, backend/src/jobs.
pub mod Renewal
pub mod Poll
mod Tests
