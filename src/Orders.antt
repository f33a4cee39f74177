-- ===== src/Orders.antt =====
-- The order service: its rows, its methods, and what holds of them.
pub mod Rows
pub mod Methods
pub mod Trail
pub mod Audit
pub mod Lifecycle
pub mod Runs
pub mod Terminal
pub mod Creation
pub mod Fills
pub mod Examples
