-- ===== src/Risk.antt =====
-- iimc_trading_platform/services/risk_service.py: the policy of a run, the sizing of one order
-- against it, and the decisions on record.
pub mod Rows
pub mod Service
pub mod Verdict
pub mod Examples
