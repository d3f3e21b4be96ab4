-- ===== src/Jobs.antt =====
-- libs/pdr-jobs: the periodic jobs, their settings, one run of a job and the record of it.
pub mod Settings
pub mod Records
pub mod Runs
