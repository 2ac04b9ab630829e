-- ===== src/Governance/Entry.antt =====
-- crates/governance/src/precompile.rs: the precompile's methods, and `mutate_void` of
-- crates/precompile/src/dispatch.rs around them, with the checks of crates/precompile/src/utils.rs.
-- A method takes the gas that is left when it is charged. What it logs is left out.
use call_node.Prelude.{
  ℕ, ◌+◌, ◌-◌, ◌*◌, ◌/◌, ◌&&◌, not, Bool, List, leb, ◌==◌, if◌then◌else◌, min, max, u128_max,
  saturating_add, ok, err,
}
use call_node.Storage.{
  Storage, load, gets, return, throw_if, ◌>>=◌, ◌>>◌, ProposalKey, slot_compliance,
  slot_validator_by_addr, u256_to_u64, u256_to_u8,
}
use call_node.Asset.Store.{read_balance}
use call_node.Governance.Types.{
  call_asset_id, caller_not_available, compliance_check_failed, unauthorized_to_queue,
  already_paused, not_paused, not_a_validator, out_of_gas,
}
use call_node.Governance.Reads.{
  Act, is_paused, read_proposal_u8, read_proposal_proposer, read_proposal_data_len,
}
use call_node.Governance.Submission.{submit_proposal}
use call_node.Governance.Voting.{vote, queue, cancel_proposal}
use call_node.Governance.Execution.{execute}
use call_node.Governance.Emergency.{
  pausing, resuming, sign, next_round, emergency_pause, emergency_resume,
}

-- A handler that fails, or whose gas is not there, leaves the storage as it was.
abbrev pub mutate_void : (gas gas_left : ℕ) → Act (Unit {0}) → Act (Unit {0})
mutate_void gas gas_left handler st =
    let (r, st') = handler st in
    elim r [
      | ok _ ↦ if leb gas gas_left then (ok tt, st') else (err out_of_gas, st)
      | err e ↦ (err e, st)
    ]

-- The checks in front of most methods.
abbrev pub require_caller : ℕ → Act ℕ
require_caller msg_sender = throw_if (msg_sender == 0) caller_not_available >> return msg_sender

abbrev pub check_compliance : ℕ → Act (Unit {0})
check_compliance addr = do
  raw ← gets (load (slot_compliance addr))
  throw_if (not (u256_to_u8 raw == 0)) compliance_check_failed

abbrev pub is_validator : ℕ → Storage → Bool
is_validator sender st = not (u256_to_u64 (load (slot_validator_by_addr sender) st) == 0)

-- `read_balance(..).unwrap_or(0)`
abbrev pub call_balance : ℕ → Storage → ℕ
unfolding read_balance
call_balance caller st =
    let (r, _) = read_balance call_asset_id caller st in elim r [ ok balance ↦ balance | err _ ↦ 0 ]

-- The power of a vote, by the type of the proposal: one for a validator, and the balance of CALL.
abbrev pub voting_power : (proposal_type : ℕ) (validator : Bool) (balance : ℕ) → ℕ
voting_power proposal_type validator balance =
    let one = if validator then 1 else 0 in
    if proposal_type == 2
    then balance
    else if proposal_type == 4
    then saturating_add u128_max one balance
    else if proposal_type == 5
    then one
    else if leb proposal_type 10
    then max one balance
    else balance

-- The gas of a submission and of an execution, by the bytes they come with.
abbrev pub submission_gas : ℕ → ℕ
submission_gas data_len = min (100_000 + (data_len + 31) / 32 * 5_000) 1_000_000

abbrev pub execution_gas : ℕ → ℕ
execution_gas data_len = min (20_000 + (data_len + 31) / 32 * 500) 100_000

module _ (keccak256 : List ℕ → ℕ) where
  unfoldable pub submit_handler :
      (proposal_type : ℕ) → List ℕ → List ℕ → List ℕ → (msg_sender block : ℕ) → Act (Unit {0})
  unfolding submit_proposal
  submit_handler proposal_type title description execution_data msg_sender block = do
    caller ← require_caller msg_sender
    check_compliance caller
    submit_proposal keccak256 proposal_type title description execution_data caller block
    return tt

  unfoldable pub submit_proposal_call :
      (calldata_len gas_left proposal_type : ℕ)
      → List ℕ
      → List ℕ
      → List ℕ
      → (msg_sender block : ℕ) → Act (Unit {0})
  unfolding submit_handler
  submit_proposal_call calldata_len gas_left proposal_type title description execution_data
        msg_sender block =
      mutate_void (submission_gas (calldata_len - 4)) gas_left
        (submit_handler proposal_type title description execution_data msg_sender block)

unfoldable pub vote_handler : (proposal_id vote_val msg_sender block : ℕ) → Act (Unit {0})
vote_handler proposal_id vote_val msg_sender block = do
  caller ← require_caller msg_sender
  proposal_type ← gets (read_proposal_u8 proposal_id ProposalKey.proposal_type)
  validator ← gets (is_validator caller)
  balance ← gets (call_balance caller)
  vote proposal_id vote_val caller (voting_power proposal_type validator balance) block

unfoldable pub vote_call : (gas_left proposal_id vote_val msg_sender block : ℕ) → Act (Unit {0})
unfolding vote_handler
vote_call gas_left proposal_id vote_val msg_sender block =
    mutate_void 10_000 gas_left (vote_handler proposal_id vote_val msg_sender block)

unfoldable pub queue_handler : (proposal_id msg_sender block : ℕ) → Act (Unit {0})
queue_handler proposal_id msg_sender block = do
  caller ← require_caller msg_sender
  proposer ← gets (read_proposal_proposer proposal_id)
  validator ← gets (is_validator caller)
  throw_if (not (caller == proposer) && not validator) unauthorized_to_queue
  queue proposal_id block

unfoldable pub queue_call : (gas_left proposal_id msg_sender block : ℕ) → Act (Unit {0})
unfolding queue_handler
queue_call gas_left proposal_id msg_sender block =
    mutate_void 20_000 gas_left (queue_handler proposal_id msg_sender block)

unfoldable pub execute_handler : (proposal_id msg_sender block : ℕ) → Act (Unit {0})
execute_handler proposal_id msg_sender block = do
  require_caller msg_sender
  execute proposal_id block

-- The call data names the proposal.
unfoldable pub execute_call : (gas_left proposal_id msg_sender block : ℕ) → Act (Unit {0})
unfolding execute_handler
execute_call gas_left proposal_id msg_sender block = do
  data_len ← gets (read_proposal_data_len proposal_id)
  mutate_void (execution_gas data_len) gas_left (execute_handler proposal_id msg_sender block)

unfoldable pub cancel_handler : (proposal_id msg_sender : ℕ) → Act (Unit {0})
cancel_handler proposal_id msg_sender = do
  caller ← require_caller msg_sender
  cancel_proposal proposal_id caller

unfoldable pub cancel_proposal_call : (gas_left proposal_id msg_sender : ℕ) → Act (Unit {0})
unfolding cancel_handler
cancel_proposal_call gas_left proposal_id msg_sender =
    mutate_void 20_000 gas_left (cancel_handler proposal_id msg_sender)

unfoldable pub pause_handler : (reason msg_sender : ℕ) → Act (Unit {0})
pause_handler reason msg_sender = do
  caller ← require_caller msg_sender
  paused ← gets is_paused
  throw_if paused already_paused
  validator ← gets (is_validator caller)
  throw_if (not validator) not_a_validator
  reached ← sign pausing caller
  (if reached then emergency_pause reason >> next_round pausing else return tt)

unfoldable pub emergency_pause_call : (gas_left reason msg_sender : ℕ) → Act (Unit {0})
unfolding pause_handler
emergency_pause_call gas_left reason msg_sender =
    mutate_void 30_000 gas_left (pause_handler reason msg_sender)

unfoldable pub resume_by : ℕ → Act (Unit {0})
resume_by caller = do
  paused ← gets is_paused
  throw_if (not paused) not_paused
  validator ← gets (is_validator caller)
  throw_if (not validator) not_a_validator
  reached ← sign resuming caller
  (if reached then emergency_resume >> next_round resuming else return tt)

unfoldable pub resume_handler : ℕ → Act (Unit {0})
unfolding resume_by
resume_handler msg_sender = do caller ← require_caller msg_sender; resume_by caller

unfoldable pub emergency_resume_call : (gas_left msg_sender : ℕ) → Act (Unit {0})
unfolding resume_handler
emergency_resume_call gas_left msg_sender = mutate_void 20_000 gas_left (resume_handler msg_sender)
