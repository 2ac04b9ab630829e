-- ===== src/Validator.antt =====
-- crates/validator/src/lib.rs: staking, unbonding and slashing.
pub mod Types
pub mod Ops
pub mod Staking
pub mod Queue
pub mod Claims
pub mod Lifecycle
mod Tests
