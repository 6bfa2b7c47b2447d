-- ===== src/Operations.antt =====
-- src/operations.rs.
pub mod Sql
pub mod Lag
pub mod Active
pub mod Statements
pub mod Retry
pub mod Horizon
pub mod Reports
pub mod Phase
pub mod Runners
pub mod Merge
pub mod Allows
