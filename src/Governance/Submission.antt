-- ===== src/Governance/Submission.antt =====
-- crates/governance/src/precompile.rs: the configuration in storage, the quorum of a proposal, and
-- `submit_proposal`.
use call_node.Prelude.{
  ℕ, zero, suc, ◌+◌, ◌-◌, ◌/◌, ◌%◌, ◌^◌, ◌&&◌, not, List, [], ◌∷◌, ◌++◌, ltb, ◌==◌, if◌then◌else◌,
  length, take, drop, replicate, from_be_bytes, u64_max, checked_add,
}
use call_node.Storage.{
  Storage, gets, return, throw_if, ok_or, map_err, read, write, ◌>>=◌, ◌>>◌, ProposalKey, ConfigKey,
  slot_gov_proposal_count, slot_gov_proposal, slot_gov_config, slot_gov_config_initialized,
  slot_gov_last_submission, slot_gov_proposal_data_chunk, u256_to_u64, u64_to_u256, u128_to_u256,
  address_to_u256,
}
use call_node.Asset.Store.{deduct_balance}
use call_node.Governance.Types.{
  call_asset_id, proposal_deposit, gov_proposal_cooldown, unsupported_proposal_type,
  proposal_rate_limited, slash_data_too_short, slash_amount_zero, insufficient_deposit,
  start_block_overflow, end_block_overflow,
}
use call_node.Governance.Config.{
  GovernanceConfig, default_config, treasury_quorum, supply_quorum, emergency_pause_threshold,
  validator_quorum,
}
use call_node.Governance.Reads.{
  Act, read_proposal_count, read_proposal_u8, read_proposal_proposer, read_validator_count,
  read_config_u32, read_config_u64, read_config_u128,
}

abbrev pub write_proposal : ℕ → ProposalKey → ℕ → Act (Unit {0})
write_proposal proposal_id suffix value = write (slot_gov_proposal proposal_id suffix) value

abbrev pub write_config_u64 : ConfigKey → ℕ → Act (Unit {0})
write_config_u64 suffix value = write (slot_gov_config suffix) (u64_to_u256 value)

abbrev pub write_config_u128 : ConfigKey → ℕ → Act (Unit {0})
write_config_u128 suffix value = write (slot_gov_config suffix) (u128_to_u256 value)

abbrev pub write_config_u32 : ConfigKey → ℕ → Act (Unit {0})
write_config_u32 suffix value = write (slot_gov_config suffix) (u64_to_u256 value)

unfoldable pub ensure_config_initialized : Act (Unit {0})
ensure_config_initialized = do
  initialized ← read slot_gov_config_initialized
  (if not (initialized == 0) then return tt else (do
    write_config_u32 ConfigKey.validator_quorum_bps default_config.validator_quorum_bps
    write_config_u32 ConfigKey.supply_quorum_bps default_config.supply_quorum_bps
    write_config_u32 ConfigKey.treasury_quorum_bps default_config.treasury_quorum_bps
    write_config_u32 ConfigKey.simple_majority_bps default_config.simple_majority_bps
    write_config_u32 ConfigKey.emergency_pause_bps default_config.emergency_pause_bps
    write slot_gov_config_initialized 1))

-- The configuration as the storage has it.
abbrev pub stored_config : Storage → GovernanceConfig
stored_config st = record {
  validator_quorum_bps = read_config_u32 ConfigKey.validator_quorum_bps st;
  supply_quorum_bps = read_config_u32 ConfigKey.supply_quorum_bps st;
  treasury_quorum_bps = read_config_u32 ConfigKey.treasury_quorum_bps st;
  simple_majority_bps = read_config_u32 ConfigKey.simple_majority_bps st;
  emergency_pause_bps = read_config_u32 ConfigKey.emergency_pause_bps st;
  review_period_blocks = read_config_u64 ConfigKey.review_period st;
  voting_period_blocks = read_config_u64 ConfigKey.voting_period st;
  timelock_period_blocks = read_config_u64 ConfigKey.timelock st;
  execution_timeout_blocks = read_config_u64 ConfigKey.execution_timeout st;
  proposal_deposit = read_config_u128 ConfigKey.proposal_deposit st;
  asset_registration_fee = read_config_u128 ConfigKey.asset_registration_fee st;
}

unfoldable pub governance_config : Act GovernanceConfig
unfolding ensure_config_initialized
governance_config = do ensure_config_initialized; gets stored_config

-- The quorum of a proposal, by its type and the number of validators.
abbrev pub quorum_of : ℕ → GovernanceConfig → ℕ → ℕ
quorum_of proposal_type config validator_count =
    if proposal_type == 2
    then treasury_quorum config
    else if proposal_type == 4
    then supply_quorum config
    else if validator_count == 0
    then 0
    else if proposal_type == 5
    then emergency_pause_threshold config validator_count
    else validator_quorum config validator_count

unfoldable pub compute_and_set_quorum : ℕ → Act (Unit {0})
unfolding governance_config
compute_and_set_quorum proposal_id = do
  proposal_type ← gets (read_proposal_u8 proposal_id ProposalKey.proposal_type)
  config ← governance_config
  validator_count ← gets read_validator_count
  let quorum = quorum_of proposal_type config validator_count
  write_proposal proposal_id ProposalKey.quorum_required (u128_to_u256 quorum)

unfoldable pub mark_defeated : ℕ → Act (Unit {0})
mark_defeated proposal_id = do
  proposer ← gets (read_proposal_proposer proposal_id)
  (if not (proposer == 0) then write_proposal proposal_id ProposalKey.deposit 0 else return tt)
  write_proposal proposal_id ProposalKey.status 4

-- The bytes `lo .. hi`.
abbrev pub slice : ℕ → ℕ → List ℕ → List ℕ
slice lo hi bs = take (hi - lo) (drop lo bs)

-- The check of the data of a ValidatorSlash.
abbrev pub check_execution_data : ℕ → List ℕ → Act (Unit {0})
check_execution_data proposal_type execution_data =
    if proposal_type == 3
    then (do
      throw_if (ltb (length execution_data) 64) slash_data_too_short
      throw_if (from_be_bytes (slice 48 64 execution_data) == 0) slash_amount_zero)
    else return tt

-- `chunks(32)`, for at most the given number of chunks.
unfoldable pub chunks : ℕ → List ℕ → List (List ℕ)
chunks zero bs = []
chunks (suc n) bs = let rest = chunks n (drop 32 bs) in (take 32 bs ∷ rest)

-- A chunk with zeros behind it, as a word.
abbrev pub chunk_word : List ℕ → ℕ
chunk_word chunk = from_be_bytes (chunk ++ replicate (32 - length chunk) 0)

unfoldable pub write_chunks : ℕ → ℕ → List (List ℕ) → Act (Unit {0})
write_chunks proposal_id chunk_idx [] = return tt
write_chunks proposal_id chunk_idx (chunk ∷ rest) =
    write (slot_gov_proposal_data_chunk proposal_id chunk_idx) (chunk_word chunk)
    >> write_chunks proposal_id (chunk_idx + 1) rest

-- No votes yet, and the deposit.
unfoldable pub open_ballot : ℕ → ℕ → Act (Unit {0})
open_ballot proposal_id initial_status = do
  write_proposal proposal_id ProposalKey.status initial_status
  write_proposal proposal_id ProposalKey.votes_for 0
  write_proposal proposal_id ProposalKey.votes_against 0
  write_proposal proposal_id ProposalKey.votes_abstain 0
  write_proposal proposal_id ProposalKey.deposit (u128_to_u256 proposal_deposit)

unfoldable pub write_schedule : ℕ → ℕ → ℕ → ℕ → Act (Unit {0})
write_schedule proposal_id proposal_type start_block end_block = do
  write_proposal proposal_id ProposalKey.start_block (u64_to_u256 start_block)
  write_proposal proposal_id ProposalKey.end_block (u64_to_u256 end_block)
  write_proposal proposal_id ProposalKey.proposal_type proposal_type
  write_proposal proposal_id ProposalKey.review_end (u64_to_u256 start_block)

-- The checks before a proposal is taken: its type, the time since the proposer's last, its data.
unfoldable pub check_submission : ℕ → List ℕ → ℕ → ℕ → Act (Unit {0})
check_submission proposal_type execution_data proposer current_block = do
  throw_if (ltb 10 proposal_type) unsupported_proposal_type
  stored_cooldown ← gets (read_config_u64 ConfigKey.proposal_cooldown)
  let cooldown = if stored_cooldown == 0 then gov_proposal_cooldown else stored_cooldown
  last_raw ← read (slot_gov_last_submission proposer)
  let last_submit = u256_to_u64 last_raw
  throw_if (ltb 0 last_submit && ltb (current_block - last_submit) cooldown) proposal_rate_limited
  check_execution_data proposal_type execution_data

-- What is stored beside the texts and the data.
unfoldable pub finish_record :
    ℕ → ℕ → ℕ → (review_period start_block end_block proposal_id : ℕ) → Act (Unit {0})
finish_record proposal_type proposer current_block review_period start_block end_block proposal_id =
    do
      open_ballot proposal_id (if review_period == 0 then 1 else 0)
      write_schedule proposal_id proposal_type start_block end_block
      (if review_period == 0
          then compute_and_set_quorum proposal_id
          else write_proposal proposal_id ProposalKey.quorum_required 0)
      write (slot_gov_last_submission proposer) (u64_to_u256 current_block)

-- The checks, and the deposit.
unfoldable pub open_submission : ℕ → List ℕ → ℕ → ℕ → Act (Unit {0})
unfolding ensure_config_initialized check_submission deduct_balance
open_submission proposal_type execution_data proposer current_block = do
  ensure_config_initialized
  check_submission proposal_type execution_data proposer current_block
  map_err (deduct_balance call_asset_id proposer proposal_deposit) insufficient_deposit

module _ (keccak256 : List ℕ → ℕ) where
  -- The hashes of the texts, and the data in chunks.
  unfoldable pub write_content : ℕ → List ℕ → List ℕ → List ℕ → ℕ → Act (Unit {0})
  write_content proposal_id title description execution_data proposer = do
    write_proposal proposal_id ProposalKey.proposer (address_to_u256 proposer)
    write_proposal proposal_id ProposalKey.title (keccak256 title)
    write_proposal proposal_id ProposalKey.desc (keccak256 description)
    write_proposal proposal_id ProposalKey.data_hash (keccak256 execution_data)
    write_proposal proposal_id ProposalKey.data_len (u64_to_u256 (length execution_data))
    write_chunks proposal_id 0 (chunks ((length execution_data + 31) / 32) execution_data)

  -- What is stored of the proposal.
  unfoldable pub write_record :
      ℕ
      → List ℕ
      → List ℕ
      → List ℕ
      → ℕ
      → ℕ
      → (review_period start_block end_block proposal_id : ℕ) → Act (Unit {0})
  write_record proposal_type title description execution_data proposer current_block review_period
        start_block end_block proposal_id =
      do
        write_content proposal_id title description execution_data proposer
        finish_record proposal_type proposer current_block review_period start_block end_block
            proposal_id

  -- A proposal with its deposit paid: its periods, its number, its record.
  unfoldable pub file_proposal : ℕ → List ℕ → List ℕ → List ℕ → ℕ → ℕ → ℕ → Act ℕ
  file_proposal proposal_type title description execution_data proposer current_block proposal_id =
      do
        review_period ← gets (read_config_u64 ConfigKey.review_period)
        voting_period ← gets (read_config_u64 ConfigKey.voting_period)
        start_block ← ok_or (checked_add u64_max current_block review_period) start_block_overflow
        end_block ← ok_or (checked_add u64_max start_block voting_period) end_block_overflow
        write slot_gov_proposal_count (u64_to_u256 proposal_id)
        write_record proposal_type title description execution_data proposer current_block
            review_period start_block end_block proposal_id
        return proposal_id

  -- The texts and the data are bytes. A count at its greatest wraps, as in a build without overflow
  -- checks.
  unfoldable pub submit_proposal : ℕ → List ℕ → List ℕ → List ℕ → ℕ → ℕ → Act ℕ
  submit_proposal proposal_type title description execution_data proposer current_block = do
    open_submission proposal_type execution_data proposer current_block
    count ← gets read_proposal_count
    file_proposal proposal_type title description execution_data proposer current_block
        ((count + 1) % 2 ^ 64)
