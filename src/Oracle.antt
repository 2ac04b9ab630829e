-- ===== src/Oracle.antt =====
-- The tracker of price submissions in crates/oracle/src/tracker.rs.
pub mod Types
pub mod Ops
pub mod Rewards
pub mod Median
pub mod Calls
mod Tests
