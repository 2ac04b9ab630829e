-- ===== src/Governance/Reads.antt =====
-- crates/governance/src/precompile.rs: what `GovernanceStorage` reads.
use call_node.Prelude.{
  ℕ, zero, suc, ◌+◌, ◌-◌, ◌/◌, ◌%◌, ◌^◌, min, Bool, ◌||◌, not, List, [], ◌++◌, ltb, leb, ◌==◌,
  if◌then◌else◌, length, take, to_be_bytes, u64_max,
}
use call_node.Storage.{
  M, Storage, load, gets, throw_if, ◌>>=◌, ProposalKey, ConfigKey, slot_gov_proposal_count,
  slot_gov_proposal, slot_gov_voter, slot_gov_voter_vote, slot_gov_paused, slot_gov_config,
  slot_gov_proposal_data_chunk, slot_validator_count, u256_to_u64, u256_to_u128, u256_to_u8,
  u256_to_address,
}
use call_node.Governance.Types.{GovError, invalid_proposal_id, max_execution_data_len}

abbrev pub Act : Type 0 → Type 0
Act = M GovError

abbrev pub read_proposal_count : Storage → ℕ
read_proposal_count st = u256_to_u64 (load slot_gov_proposal_count st)

abbrev pub read_proposal_status : ℕ → Storage → ℕ
read_proposal_status proposal_id st =
    u256_to_u8 (load (slot_gov_proposal proposal_id ProposalKey.status) st)

abbrev pub read_proposal_u64 : ℕ → ProposalKey → Storage → ℕ
read_proposal_u64 proposal_id suffix st =
    u256_to_u64 (load (slot_gov_proposal proposal_id suffix) st)

abbrev pub read_proposal_u8 : ℕ → ProposalKey → Storage → ℕ
read_proposal_u8 proposal_id suffix st = u256_to_u8 (load (slot_gov_proposal proposal_id suffix) st)

abbrev pub read_proposal_u128 : ℕ → ProposalKey → Storage → ℕ
read_proposal_u128 proposal_id suffix st =
    u256_to_u128 (load (slot_gov_proposal proposal_id suffix) st)

abbrev pub read_proposal_proposer : ℕ → Storage → ℕ
read_proposal_proposer proposal_id st =
    u256_to_address (load (slot_gov_proposal proposal_id ProposalKey.proposer) st)

abbrev pub read_proposal_data_len : ℕ → Storage → ℕ
read_proposal_data_len proposal_id st =
    u256_to_u64 (load (slot_gov_proposal proposal_id ProposalKey.data_len) st)

-- The loop over the chunks: the number of chunks to read, the index of the next, and the bytes so
-- far.
unfoldable pub read_chunks : ℕ → ℕ → ℕ → ℕ → List ℕ → Storage → List ℕ
read_chunks zero proposal_id chunk_idx data_len result st = result
read_chunks (suc n) proposal_id chunk_idx data_len result st =
    let chunk = to_be_bytes 32 (load (slot_gov_proposal_data_chunk proposal_id chunk_idx) st) in
    let remaining = data_len - length result in
    read_chunks n proposal_id (chunk_idx + 1) data_len (result ++ take (min remaining 32) chunk) st

unfoldable pub read_proposal_execution_data : ℕ → Storage → List ℕ
unfolding read_chunks
read_proposal_execution_data proposal_id st =
    let data_len = read_proposal_data_len proposal_id st in
    if data_len == 0
    then []
    else if ltb max_execution_data_len data_len
    then []
    else read_chunks ((data_len + 31) / 32) proposal_id 0 data_len [] st

abbrev pub require_proposal_status : ℕ → ℕ → GovError → Act (Unit {0})
require_proposal_status proposal_id expected e = do
  status ← gets (read_proposal_status proposal_id)
  throw_if (not (status == expected)) e

abbrev pub require_valid_proposal_id : ℕ → Act (Unit {0})
require_valid_proposal_id proposal_id = do
  count ← gets read_proposal_count
  throw_if (proposal_id == 0 || ltb count proposal_id) invalid_proposal_id

abbrev pub read_vote_tally : ℕ → ProposalKey → Storage → ℕ
read_vote_tally = read_proposal_u128

abbrev pub read_voter_power : ℕ → ℕ → Storage → ℕ
read_voter_power proposal_id voter st = u256_to_u128 (load (slot_gov_voter proposal_id voter) st)

abbrev pub read_voter_vote : ℕ → ℕ → Storage → ℕ
read_voter_vote proposal_id voter st = u256_to_u8 (load (slot_gov_voter_vote proposal_id voter) st)

abbrev pub read_validator_count : Storage → ℕ
read_validator_count st =
    let count = load slot_validator_count st in if leb count u64_max then count else u64_max

abbrev pub read_config_u64 : ConfigKey → Storage → ℕ
read_config_u64 suffix st = u256_to_u64 (load (slot_gov_config suffix) st)

abbrev pub read_config_u128 : ConfigKey → Storage → ℕ
read_config_u128 suffix st = u256_to_u128 (load (slot_gov_config suffix) st)

abbrev pub read_config_u32 : ConfigKey → Storage → ℕ
read_config_u32 suffix st = u256_to_u64 (load (slot_gov_config suffix) st) % 2 ^ 32

abbrev pub is_paused : Storage → Bool
is_paused st = not (u256_to_u8 (load slot_gov_paused st) == 0)
