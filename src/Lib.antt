-- ===== src/Lib.antt =====
-- Verification of the Callchain node: the parts of crates/ that keep balances, stakes, compliance
-- flags, governance proposals, protocol upgrades and pending transactions, and choose proposers.
--
-- The node executes transactions over one EVM storage. Native assets, validator stakes and compliance
-- flags live in that storage at slots that are hashes of their keys, and precompiled contracts change
-- them through AssetStorage, ValidatorStorage, ComplianceStorage and GovernanceStorage. A governance
-- proposal takes its deposit and pays by the balance functions of assets, counts validators, and when
-- it is carried out changes parameters, stakes, flags and fee currencies. The consensus crate decides which protocol
-- version a block must have, and lets two thirds of the validators order a rollback.
--
-- Which file models which part:
--   Prelude        the standard library of Rust as far as it is used: Boolean tests, checked and
--                  saturating integers (Ints), lists (Lists), Result (Results), to_le_bytes and
--                  from_be_bytes (Bytes), HashMap and HashSet as association lists (Dicts).
--   Storage        crates/protocol/src/storage_backend.rs and the slot functions of
--                  crates/precompile/src/utils.rs and of the crates below. Slots names each slot by
--                  the function that computes it; Storage is a map from slots to words; Monad is the
--                  state that is passed through fallible code; Framing has one rule for each way to
--                  build a call, from which follows what a call leaves alone; Words the
--                  conversions of words; Layout the locations that storage_slot of
--                  crates/precompile/src/storage.rs gives the slots. Views relates the map to the
--                  storage at these locations, with Reading and Separation, where a slot is read back
--                  from the bytes that are hashed for it.
--   Asset          crates/asset/src/lib.rs, AssetStorage: Types, Store (slots and metadata), Ops
--                  (transfer, batch_transfer, approve, transfer_from, mint, burn), Registry (register,
--                  register_erc20, bindings). The proofs are in Total, Transfers, Supply, Backing,
--                  Runs, Registration and Binding.
--   Validator      crates/validator/src/lib.rs, ValidatorStorage: Types (constants, packed queue
--                  entries), Ops (stake, unstake, claim_unbonded, slash_stake, the queue). The proofs
--                  are in Staking, Queue, Claims and Lifecycle. It moves its coins by the balance
--                  functions of Asset.
--   Governance     crates/governance/src/config.rs (Config) and crates/governance/src/precompile.rs:
--                  Reads, Submission (submit_proposal and the configuration), Voting (vote, queue,
--                  cancel_proposal), Effects (what a proposal does, by its type), Execution, Emergency
--                  (signatures for a pause or its end), and Entry (the precompile's methods, with
--                  mutate_void of crates/precompile/src/dispatch.rs). The proofs are in Advance,
--                  Frames, Untouched, Calls, Counting (what calls leave alone), Ballots, Elections
--                  (tallies), Lifecycle, Trails (statuses), Chunks, Storing (data), Tallying,
--                  Carrying, Quorums, Signatures and Rounds.
--   Compliance     crates/compliance/src/lib.rs, ComplianceStorage: Ops; the proofs are in Authority.
--   Fork           crates/consensus/src/fork.rs, ForkManager, and ProtocolVersion of
--                  crates/primitives/src/lib.rs: Types, Upgrades (features, scheduling, activation,
--                  readiness), Rollback (signatures, quorum, execution). The proofs are in Scheduling,
--                  Activation, Settled, Versions, Messages, Quorum, Collection and Replay.
--   Mempool        crates/mempool/src/priority.rs and crates/mempool/src/pool.rs: Types, Priority
--                  (PriorityPool), Pool (Mempool). The proofs are in Order, Entries, Expiry, Hashes,
--                  Bounds, Admission, Removal, Serving and Nonces.
--   BlockCache     crates/consensus/src/block_cache.rs: Ops; the proofs are in Digests, Keys and
--                  Agreement.
--   Proposer       crates/consensus/src/proposer.rs: Ops; the proofs are in Sorting, Subset and Limits.
--   Oracle         crates/oracle/src/tracker.rs, OracleTracker, with the types of lib.rs beside it,
--                  constants.rs and crypto.rs: Types, Ops (submit_price, aggregate_submissions,
--                  distribute_rewards); the proofs are in Rewards, Median and Calls.
--   Security       crates/protocol/src/security.rs: Ops (RateLimiter, ReplayProtector, MempoolDefense,
--                  P2PDefense); the proofs are in Windows and Submission.
--   Shielded       crates/shielded/src/merkle.rs: Merkle (IncrementalMerkleTree and its proofs); the
--                  proofs about it are in Levels and Paths. crates/shielded/src/nullifiers.rs:
--                  Nullifiers (NullifierSet); the proofs are in Spent.
--
-- Conventions:
--   A number of any width is a native number. Where the source adds without a check, the model wraps
--   at the width, as a build without overflow checks does; checked and saturating operations are
--   those of Ints. An address, a hash, a key or a signature is the number that its bytes spell; text
--   is its list of bytes.
--   Code that changes state takes the storage (or the record) and returns it beside its result. An
--   error keeps what was written before it, as the source does not undo writes; only mutate_void, which
--   stands around the methods of a precompile, goes back to the storage before the call.
--   A loop over a queue or a batch is structural recursion on the list or on its length, so no fuel is
--   needed. The chunks of execution data are cut and read for as many as their length needs.
--   The slot functions are constructors, so that slots of different keys differ. For the slots of
--   accounts, Views states what this takes of the hash: it tells the bytes of two slots apart.
--   BTreeMap is a list in the order of its keys. HashMap is an association list, and only
--   operations that do not depend on its order are used.
--
-- Parameters, for code that is outside of the modelled files:
--   keccak256 (Layout, Mempool.Pool, Proposer.Ops, Governance.Submission, Shielded.Merkle),
--   ed25519_verify (Fork.Rollback, Oracle.Ops), vrf_sortition_score (Proposer.Ops) and the
--   serialisation of a transaction (Mempool.Pool), all of them arbitrary functions.
--   in_order, the order in which a HashMap or a HashSet is iterated: of the submissions of a pair
--   (Oracle.Ops), where the theorems on calls assume that these are as many as the map holds, and of
--   the seen hashes (Security.Ops), where nothing is assumed.
--
-- Not modelled here: logging and events, the decoding of calldata, the metering of single loads and
-- stores (a method takes the gas that is left when it is charged) and static calls, the database below
-- the storage, the node's advancer of proposals (crates/node/src/governance_advancer.rs), and the other
-- crates.
pub mod Prelude
pub mod Storage
pub mod Asset
pub mod Validator
pub mod BlockCache
pub mod Compliance
pub mod Fork
pub mod Governance
pub mod Mempool
pub mod Oracle
pub mod Proposer
pub mod Security
pub mod Shielded
