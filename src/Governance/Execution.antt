-- ===== src/Governance/Execution.antt =====
-- crates/governance/src/precompile.rs: `execute`.
use call_node.Prelude.{ℕ, ◌&&◌, not, ltb, ◌==◌, if◌then◌else◌, u64_max, saturating_add}
use call_node.Storage.{Storage, gets, throw, throw_if, ◌>>=◌, ◌>>◌, ProposalKey, ConfigKey}
use call_node.Governance.Types.{
  gov_exec_timeout, chain_paused, proposal_not_queued, timelock_not_elapsed, deposit_refund_failed,
  execution_timeout_reached, refund_failed,
}
use call_node.Governance.Reads.{
  Act, is_paused, require_valid_proposal_id, require_proposal_status, read_proposal_u64,
  read_proposal_u8, read_proposal_proposer, read_proposal_execution_data, read_config_u64,
}
use call_node.Governance.Submission.{write_proposal}
use call_node.Governance.Voting.{refund_deposit}
use call_node.Governance.Effects.{apply_effects}

abbrev pub execution_timeout : Storage → ℕ
execution_timeout st =
    let stored = read_config_u64 ConfigKey.execution_timeout st in
    if stored == 0 then gov_exec_timeout else stored

-- A proposal that is too old expires, and its deposit goes back.
unfoldable pub expire : ℕ → ℕ → Act (Unit {0})
expire proposal_id proposer = do
  write_proposal proposal_id ProposalKey.status 6
  refund_deposit proposal_id proposer deposit_refund_failed
  throw execution_timeout_reached

-- What happens in time: the effects, the refund, and the new status.
unfoldable pub carry_out : ℕ → ℕ → Act (Unit {0})
carry_out proposal_id proposer = do
  proposal_type ← gets (read_proposal_u8 proposal_id ProposalKey.proposal_type)
  execution_data ← gets (read_proposal_execution_data proposal_id)
  apply_effects proposal_type execution_data
  refund_deposit proposal_id proposer refund_failed
  write_proposal proposal_id ProposalKey.status 3

unfoldable pub execute : ℕ → ℕ → Act (Unit {0})
execute proposal_id current_block = do
  require_valid_proposal_id proposal_id
  proposal_type ← gets (read_proposal_u8 proposal_id ProposalKey.proposal_type)
  paused ← gets is_paused
  throw_if (paused && not (proposal_type == 5)) chain_paused
  require_proposal_status proposal_id 2 proposal_not_queued
  execution_block ← gets (read_proposal_u64 proposal_id ProposalKey.execution_block)
  throw_if (ltb current_block execution_block) timelock_not_elapsed
  timeout ← gets execution_timeout
  proposer ← gets (read_proposal_proposer proposal_id)
  (if ltb (saturating_add u64_max execution_block timeout) current_block
      then expire proposal_id proposer
      else carry_out proposal_id proposer)
