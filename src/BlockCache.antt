-- ===== src/BlockCache.antt =====
-- `BlockCache` of crates/consensus/src/block_cache.rs.
pub mod Ops
pub mod Digests
pub mod Keys
pub mod Agreement
mod Tests
