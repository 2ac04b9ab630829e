-- ===== src/Proposer.antt =====
-- The choice of proposers in crates/consensus/src/proposer.rs.
pub mod Ops
pub mod Sorting
pub mod Subset
pub mod Limits
mod Tests
