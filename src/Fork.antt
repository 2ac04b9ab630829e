-- ===== src/Fork.antt =====
-- crates/consensus/src/fork.rs, with `ProtocolVersion` of crates/primitives/src/lib.rs.
pub mod Types
pub mod Upgrades
pub mod Rollback
pub mod Scheduling
pub mod Activation
pub mod Settled
pub mod Versions
pub mod Messages
pub mod Quorum
pub mod Collection
pub mod Replay
mod Tests
