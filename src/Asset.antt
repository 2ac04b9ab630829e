-- ===== src/Asset.antt =====
-- crates/asset/src/lib.rs.
pub mod Types
pub mod Store
pub mod Ops
pub mod Total
pub mod Transfers
pub mod Supply
pub mod Backing
pub mod Runs
pub mod Registry
pub mod Registration
pub mod Binding
mod Tests
