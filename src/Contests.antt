-- ===== src/Contests.antt =====
-- iimc_trading_platform/services/contest_service.py: contests over a frozen dataset, and their
-- standings.
pub mod Rows
pub mod Service
pub mod Standing
pub mod Closing
pub mod Examples
