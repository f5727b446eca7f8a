-- ===== src/Jobs.antt =====
-- internal/jobs: the jobs of the NAS.
pub mod Dispatcher
pub mod Worker
