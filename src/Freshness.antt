-- ===== src/Freshness.antt =====
-- iimc_trading_platform/services/freshness_service.py: whether a dataset is recent enough for a
-- purpose.
pub mod Rows
pub mod Service
pub mod Verdicts
pub mod Assessments
pub mod Examples
