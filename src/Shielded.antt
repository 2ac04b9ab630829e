-- ===== src/Shielded.antt =====
-- The tree of notes and the set of nullifiers, crates/shielded/src/merkle.rs and nullifiers.rs.
pub mod Merkle
pub mod Levels
pub mod Paths
pub mod Nullifiers
pub mod Spent
mod Tests
