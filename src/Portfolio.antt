-- ===== src/Portfolio.antt =====
-- The portfolio service: its tables, its methods, and what holds of them.
pub mod Rows
pub mod Reads
pub mod Assess
pub mod Snapshot
pub mod Reserve
pub mod Fill
pub mod Limits
pub mod OpenSells
pub mod Coverage
pub mod Promises
pub mod Approvals
pub mod Bounds
pub mod Runs
pub mod KillSwitch
pub mod Frozen
pub mod Standstill
pub mod Replays
pub mod Sales
pub mod Examples
