-- ===== src/Tasks.antt =====
-- iimc_trading_platform/services/task_service.py: the durable queue of one-off tasks.
pub mod Rows
pub mod Service
pub mod Sound
pub mod Moves
pub mod Submission
pub mod Stored
pub mod Runs
pub mod Claims
pub mod Final
pub mod Examples
