-- ===== src/Governance.antt =====
-- crates/governance: proposals, votes, execution and the emergency pause.
pub mod Types
pub mod Config
pub mod Reads
pub mod Submission
pub mod Voting
pub mod Effects
pub mod Execution
pub mod Emergency
pub mod Entry
pub mod Advance
pub mod Frames
pub mod Ballots
pub mod Untouched
pub mod Calls
pub mod Counting
pub mod Elections
pub mod Lifecycle
pub mod Trails
pub mod Chunks
pub mod Storing
pub mod Tallying
pub mod Quorums
pub mod Signatures
pub mod Rounds
pub mod Carrying
mod Tests
