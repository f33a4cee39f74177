-- ===== src/Rules.antt =====
-- iimc_trading_platform/strategies/rule_spec.py: strategies that are written as rules, their validation
-- and their signals.
pub mod Spec
pub mod Series
pub mod References
pub mod Evaluate
pub mod Generate
pub mod Validate
pub mod Outcomes
pub mod Alternation
pub mod Lengths
pub mod Covered
pub mod Resolution
pub mod Returns
pub mod Dividing
pub mod Built
pub mod Validated
pub mod Examples
