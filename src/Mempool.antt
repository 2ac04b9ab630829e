-- ===== src/Mempool.antt =====
-- crates/mempool/src/priority.rs and crates/mempool/src/pool.rs.
pub mod Types
pub mod Priority
pub mod Pool
pub mod Order
pub mod Entries
pub mod Expiry
pub mod Hashes
pub mod Bounds
pub mod Admission
pub mod Removal
pub mod Serving
pub mod Nonces
mod Tests
