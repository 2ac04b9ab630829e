-- ===== src/Security.antt =====
-- crates/protocol/src/security.rs.
pub mod Ops
pub mod Windows
pub mod Submission
mod Tests
