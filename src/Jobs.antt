-- ===== src/Jobs.antt =====
-- iimc_trading_platform/services/job_service.py: scheduled jobs that workers claim, run and put
-- back.
pub mod Rows
pub mod Service
pub mod Claims
pub mod Runs
pub mod Locked
pub mod Locks
pub mod Endings
pub mod Examples
