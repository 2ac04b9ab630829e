-- ===== src/Governance/Voting.antt =====
-- crates/governance/src/precompile.rs: `vote`, `queue` and `cancel_proposal`.
use call_node.Prelude.{
  ℕ, Bool, false, ◌&&◌, ◌||◌, not, ltb, leb, ◌==◌, if◌then◌else◌, u64_max, u128_max, checked_add,
  saturating_add, saturating_mul,
}
use call_node.Storage.{
  Storage, gets, return, throw, throw_if, ok_or, map_err, read, write, ◌>>=◌, ◌>>◌, ProposalKey,
  ConfigKey, slot_gov_voter, slot_gov_voter_vote, u64_to_u256, u128_to_u256,
}
use call_node.Asset.Store.{add_balance}
use call_node.Governance.Types.{
  GovError, call_asset_id, gov_timelock_blocks, invalid_vote_value, chain_paused,
  proposal_not_active, voting_not_started, voting_period_closed, already_voted, no_voting_power,
  quorum_not_reached, not_enough_for_votes, timelock_block_overflow, only_proposer_can_cancel,
  only_in_review, refund_failed,
}
use call_node.Governance.Config.{default_config}
use call_node.Governance.Reads.{
  Act, is_paused, require_valid_proposal_id, require_proposal_status, read_proposal_status,
  read_proposal_u64, read_proposal_u8, read_proposal_u128, read_proposal_proposer, read_vote_tally,
  read_validator_count, read_config_u64, read_config_u32,
}
use call_node.Governance.Submission.{write_proposal, compute_and_set_quorum, mark_defeated}

-- Pending becomes Active when the review period is over.
unfoldable pub auto_advance : ℕ → ℕ → Act (Unit {0})
unfolding compute_and_set_quorum
auto_advance proposal_id current_block = do
  status ← gets (read_proposal_status proposal_id)
  start_block ← gets (read_proposal_u64 proposal_id ProposalKey.start_block)
  (if status == 0 && leb start_block current_block
      then (do write_proposal proposal_id ProposalKey.status 1; compute_and_set_quorum proposal_id)
      else return tt)

abbrev pub tally_suffix : ℕ → ProposalKey
tally_suffix vote_val =
    if vote_val == 1
    then ProposalKey.votes_for
    else if vote_val == 2
    then ProposalKey.votes_against
    else ProposalKey.votes_abstain

-- The vote of an active proposal: the power is recorded and counted.
unfoldable pub record_vote : ℕ → ℕ → ℕ → ℕ → Act (Unit {0})
record_vote proposal_id vote_val voter voting_power = do
  has_voted ← read (slot_gov_voter proposal_id voter)
  throw_if (not (has_voted == 0)) already_voted
  throw_if (voting_power == 0) no_voting_power
  write (slot_gov_voter proposal_id voter) (u128_to_u256 voting_power)
  write (slot_gov_voter_vote proposal_id voter) vote_val
  tally ← gets (read_vote_tally proposal_id (tally_suffix vote_val))
  write_proposal proposal_id (tally_suffix vote_val)
      (u128_to_u256 (saturating_add u128_max tally voting_power))

-- Only an active proposal takes votes, and only in its voting period.
unfoldable pub require_open : ℕ → ℕ → ℕ → ℕ → Act (Unit {0})
require_open proposal_id start_block end_block current_block = do
  require_proposal_status proposal_id 1 proposal_not_active
  throw_if (ltb current_block start_block) voting_not_started
  throw_if (leb end_block current_block) voting_period_closed

unfoldable pub vote : ℕ → ℕ → ℕ → ℕ → ℕ → Act (Unit {0})
vote proposal_id vote_val voter voting_power current_block = do
  throw_if (ltb vote_val 1 || ltb 3 vote_val) invalid_vote_value
  paused ← gets is_paused
  throw_if paused chain_paused
  require_valid_proposal_id proposal_id
  start_block ← gets (read_proposal_u64 proposal_id ProposalKey.start_block)
  end_block ← gets (read_proposal_u64 proposal_id ProposalKey.end_block)
  auto_advance proposal_id current_block
  require_open proposal_id start_block end_block current_block
  record_vote proposal_id vote_val voter voting_power

-- The test of the quorum: the required one, or the fallback where none is set.
abbrev pub has_quorum : (quorum_required validator_count votes_for votes_against total : ℕ) → Bool
has_quorum quorum_required validator_count votes_for votes_against total =
    if ltb 0 quorum_required
    then leb quorum_required total
    else leb (if ltb 0 validator_count then validator_count else 1) total
      && ltb votes_against votes_for

abbrev pub has_majority : (votes_for votes_against simple_majority_bps : ℕ) → Bool
has_majority votes_for votes_against simple_majority_bps =
    let participation = saturating_add u128_max votes_for votes_against in
    if participation == 0
    then false
    else ltb (saturating_mul u128_max participation simple_majority_bps)
        (saturating_mul u128_max votes_for 10_000)

abbrev pub majority_bps : Storage → ℕ
majority_bps st =
    let stored = read_config_u32 ConfigKey.simple_majority_bps st in
    if stored == 0 then default_config.simple_majority_bps else stored

abbrev pub timelock_blocks : Storage → ℕ
timelock_blocks st =
    let stored = read_config_u64 ConfigKey.timelock st in
    if stored == 0 then gov_timelock_blocks else stored

-- A failed test marks the proposal defeated.
abbrev pub defeat_unless : Bool → ℕ → GovError → Act (Unit {0})
defeat_unless passed proposal_id e =
    if passed then return tt else (mark_defeated proposal_id >> throw e)

-- The tests of the quorum and of the majority on the votes.
unfoldable pub require_passed : ℕ → Act (Unit {0})
unfolding mark_defeated
require_passed proposal_id = do
  votes_for ← gets (read_vote_tally proposal_id ProposalKey.votes_for)
  votes_against ← gets (read_vote_tally proposal_id ProposalKey.votes_against)
  votes_abstain ← gets (read_vote_tally proposal_id ProposalKey.votes_abstain)
  let total_votes =
      saturating_add u128_max (saturating_add u128_max votes_for votes_against) votes_abstain
  quorum_required ← gets (read_proposal_u128 proposal_id ProposalKey.quorum_required)
  validator_count ← gets read_validator_count
  defeat_unless (has_quorum quorum_required validator_count votes_for votes_against total_votes)
      proposal_id quorum_not_reached
  bps ← gets majority_bps
  defeat_unless (has_majority votes_for votes_against bps) proposal_id not_enough_for_votes

-- The step to Queued: an emergency pause may be executed at once, all else after the timelock.
unfoldable pub enqueue : ℕ → ℕ → Act (Unit {0})
enqueue proposal_id current_block = do
  proposal_type ← gets (read_proposal_u8 proposal_id ProposalKey.proposal_type)
  timelock ← gets timelock_blocks
  exec_block ←
      (if proposal_type == 5
        then return current_block
        else ok_or (checked_add u64_max current_block timelock) timelock_block_overflow)
  write_proposal proposal_id ProposalKey.status 2
  write_proposal proposal_id ProposalKey.queued_at (u64_to_u256 current_block)
  write_proposal proposal_id ProposalKey.execution_block (u64_to_u256 exec_block)

unfoldable pub queue : ℕ → ℕ → Act (Unit {0})
queue proposal_id current_block = do
  paused ← gets is_paused
  throw_if paused chain_paused
  require_valid_proposal_id proposal_id
  auto_advance proposal_id current_block
  require_proposal_status proposal_id 1 proposal_not_active
  require_passed proposal_id
  enqueue proposal_id current_block

-- The deposit goes back to the proposer.
unfoldable pub refund_deposit : ℕ → ℕ → GovError → Act (Unit {0})
unfolding add_balance
refund_deposit proposal_id proposer e = do
  deposit ← gets (read_proposal_u128 proposal_id ProposalKey.deposit)
  (if ltb 0 deposit && not (proposer == 0)
      then (do
        map_err (add_balance call_asset_id proposer deposit) e
        write_proposal proposal_id ProposalKey.deposit 0)
      else return tt)

unfoldable pub cancel_proposal : ℕ → ℕ → Act (Unit {0})
cancel_proposal proposal_id caller = do
  paused ← gets is_paused
  throw_if paused chain_paused
  require_valid_proposal_id proposal_id
  proposer ← gets (read_proposal_proposer proposal_id)
  throw_if (not (caller == proposer)) only_proposer_can_cancel
  status ← gets (read_proposal_status proposal_id)
  throw_if (not (status == 0)) only_in_review
  refund_deposit proposal_id proposer refund_failed
  write_proposal proposal_id ProposalKey.status 4
