-- ===== src/Compliance.antt =====
-- crates/compliance/src/lib.rs: the compliance flags of addresses and their admin.
pub mod Ops
pub mod Authority
mod Tests
