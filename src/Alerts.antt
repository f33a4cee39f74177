-- ===== src/Alerts.antt =====
-- iimc_trading_platform/services/price_alert_service.py: alerts on the prices of a broker.
pub mod Rows
pub mod Service
pub mod Orderings
pub mod Triggers
pub mod Runs
pub mod Final
pub mod Examples
