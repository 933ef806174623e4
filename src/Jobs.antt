-- ===== src/Jobs.antt =====
-- Background jobs: the check of all keys, and the rows that record the state of a job.
pub mod HealthCheck
pub mod Tracking
