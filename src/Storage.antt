-- ===== src/Storage.antt =====
-- The EVM storage that the protocol's components share:
-- crates/protocol/src/storage_backend.rs and the slot functions of crates/precompile/src/utils.rs,
-- crates/asset/src/lib.rs, crates/governance/src/precompile.rs, crates/validator/src/lib.rs and crates/compliance/src/lib.rs.
-- A word is a U256; an address is the number of its 20 bytes.
mod Keys
mod Slots
mod Identity
mod Monad
mod Words
mod Framing
pub mod Layout
mod Reading
mod Separation
pub mod Views
mod Tests
pub use Keys.{ProposalKey, ConfigKey, ProverKey, config_text, proposal_code}
pub use Slots.*
pub use Identity.*
pub use Monad.*
pub use Words.*
pub use Framing.*
