-- ===== src/Governance/Tests.antt =====
-- Runs of the governance on small storages, and the theorems at those inputs.
use call_node.Prelude.{ℕ, ◌+◌, ◌≤◌, ◌≡◌, refl, List, [], ◌∷◌, arith, err, length, ascii}
use call_node.Storage.{
  Storage, ProposalKey, ConfigKey, store, empty_storage, slot_balance, slot_gov_proposal,
  slot_gov_proposal_count, slot_validator_by_addr, slot_validator_count, slot_gov_config,
}
use call_node.Governance.Types.{already_voted}
use call_node.Governance.Reads.{read_proposal_status, read_proposal_execution_data}
use call_node.Governance.Config.{default_config, validator_quorum}
use call_node.Governance.Submission.{
  ensure_config_initialized, governance_config, compute_and_set_quorum, check_submission,
  open_submission, chunks, write_chunks, write_content, open_ballot, write_schedule, finish_record,
  write_record, file_proposal, submit_proposal,
}
use call_node.Governance.Voting.{
  auto_advance, record_vote, require_open, vote, require_passed, enqueue, queue, refund_deposit,
}
use call_node.Governance.Effects.{apply_effects, set_parameter}
use call_node.Governance.Execution.{carry_out, execute}
use call_node.Governance.Emergency.{pausing, start_epoch, sign, emergency_pause}
use call_node.Governance.Entry.{emergency_pause_call, pause_handler}
use call_node.Governance.Calls.{Call}
use call_node.Governance.Ballots.{IsTallied}
use call_node.Governance.Elections.{run_calls, run_calls-IsTallied}
use call_node.Governance.Trails.{Trail, run_calls-Trail, settled_stays, never_defeated}
use call_node.Governance.Storing.{submitted_data_back}
use call_node.Governance.Tallying.{IsQueued, queue-IsQueued}
use call_node.Governance.Carrying.{IsExecuted, execute-IsExecuted}
use call_node.Governance.Quorums.{
  IsLeastShare, validator_quorum-IsLeastShare, IsBounded, set_parameter-IsBounded,
}
use call_node.Governance.Signatures.{threshold, signers, signed}
use call_node.Governance.Rounds.{IsCounted, emergency_pause_call-IsCounted, paused_by_quorum}

abbrev spell : List ℕ → ℕ
spell bs = length bs

-- Accounts 5 and 6 are validators. Proposal 1 of account 5, an emergency pause, takes votes from
-- block 10 to block 100.
abbrev opening : Storage
opening = store slot_gov_proposal_count 1 (
    store (slot_gov_proposal 1 ProposalKey.status) 1 (
      store (slot_gov_proposal 1 ProposalKey.proposer) 5 (
        store (slot_gov_proposal 1 ProposalKey.start_block) 10 (
          store (slot_gov_proposal 1 ProposalKey.end_block) 100 (
            store (slot_gov_proposal 1 ProposalKey.proposal_type) 5 (
              store (slot_gov_proposal 1 ProposalKey.quorum_required) 2 (
                store slot_validator_count 2 (
                  store (slot_validator_by_addr 5) 1 (
                    store (slot_validator_by_addr 6) 2 (
                      store (slot_balance 1 5) 20_000_000_000_000_000_000_000
                        empty_storage))))))))))

-- Both have voted for it.
abbrev voted : Storage
voted = store (slot_gov_proposal 1 ProposalKey.votes_for) 2 opening

-- It is queued for block 20.
abbrev waiting : Storage
waiting =
    store (slot_gov_proposal 1 ProposalKey.status) 2
      (store (slot_gov_proposal 1 ProposalKey.execution_block) 20 voted)

abbrev calls : List Call
calls =
    Call.vote 50_000 1 1 5 20
    ∷ Call.vote 50_000 1 1 5 21
    ∷ Call.vote 50_000 1 1 6 22
    ∷ Call.queue 50_000 1 5 23
    ∷ Call.execute 50_000 1 6 24
    ∷ []

votes_once : (vote 1 1 5 1 21 (vote 1 1 5 1 20 opening).1).0 ≡ err already_voted
unfolding vote require_open record_vote auto_advance
votes_once = refl

run_calls-IsTallied_example : IsTallied 1 1 (5 ∷ 6 ∷ []) (run_calls spell calls opening)
run_calls-IsTallied_example =
    run_calls-IsTallied spell 1 1 (5 ∷ 6 ∷ []) calls opening (omega arith) (omega arith)
      (omega arith) (omega arith) (refl, (refl, (refl, (tt, (tt, tt))))) refl

run_calls-Trail_example : Trail 1 (read_proposal_status 1 (run_calls spell calls opening))
run_calls-Trail_example = run_calls-Trail spell 1 calls opening (omega arith) (omega arith)

settled_stays_example :
    read_proposal_status 1
      (run_calls spell calls (store (slot_gov_proposal 1 ProposalKey.status) 3 opening))
    ≡ 3
settled_stays_example =
    settled_stays spell 1 calls (store (slot_gov_proposal 1 ProposalKey.status) 3 opening)
      (omega arith) (omega arith) (omega arith)

never_defeated_example :
    (1 ≤ read_proposal_status 1 (run_calls spell calls opening))
    × (read_proposal_status 1 (run_calls spell calls opening) ≤ 3)
never_defeated_example =
    never_defeated spell 1 calls opening (omega arith) (omega arith) (omega arith) (omega arith)

abbrev payload : List ℕ
payload = 1 ∷ 2 ∷ 255 ∷ []

submitted_data_back_example :
    read_proposal_execution_data 2 (submit_proposal spell 1 [] [] payload 5 20 opening).1 ≡ payload
unfolding submit_proposal open_submission check_submission file_proposal write_record write_content
    finish_record open_ballot write_schedule compute_and_set_quorum governance_config
    ensure_config_initialized write_chunks chunks
submitted_data_back_example =
    submitted_data_back spell 1 [] [] payload 5 20 2 opening (omega arith)
      (omega arith, (omega arith, (omega arith, tt))) refl

queue-IsQueued_example : IsQueued 1 50 voted (queue 1 50 voted).1
unfolding queue auto_advance require_passed enqueue
queue-IsQueued_example = queue-IsQueued 1 50 voted (omega arith) (omega arith) refl

-- With a deposit of 40, which is paid back to account 5.
abbrev deposited : Storage
deposited = store (slot_gov_proposal 1 ProposalKey.deposit) 40 waiting

paid_back : (execute 1 25 deposited).1 (slot_balance 1 5) ≡ 20_000_000_000_000_000_000_040
unfolding execute carry_out refund_deposit apply_effects
paid_back = refl

execute-IsExecuted_example : IsExecuted 1 25 deposited (execute 1 25 deposited).1
unfolding execute carry_out refund_deposit apply_effects
execute-IsExecuted_example = execute-IsExecuted 1 25 deposited (omega arith) refl

validator_quorum-IsLeastShare_example : IsLeastShare 4 6667 (validator_quorum default_config 4)
validator_quorum-IsLeastShare_example =
    validator_quorum-IsLeastShare default_config 4 (omega arith) (omega arith)

set_parameter-IsBounded_example :
    IsBounded ConfigKey.simple_majority_bps
      (set_parameter
        (ascii "simple_majority_bps")
        4000
        (store (slot_gov_config ConfigKey.simple_majority_bps) 5001 opening)).1
set_parameter-IsBounded_example =
    set_parameter-IsBounded (ascii "simple_majority_bps") 4000 ConfigKey.simple_majority_bps
      (store (slot_gov_config ConfigKey.simple_majority_bps) 5001 opening) (omega arith)
      (omega arith, omega arith)

emergency_pause_call-IsCounted_example :
    IsCounted pausing (5 ∷ 6 ∷ []) (emergency_pause_call 50_000 9 5 opening).1
emergency_pause_call-IsCounted_example =
    emergency_pause_call-IsCounted 50_000 9 5 (5 ∷ 6 ∷ []) opening refl (omega arith) (omega arith)
      (record { counted = refl; none_ahead = λ v. omega arith })

abbrev alone : Storage
alone = store slot_validator_count 1 opening

paused_by_quorum_example :
    (threshold alone ≤ signers pausing (5 ∷ 6 ∷ []) alone + 1) × (signed pausing alone 5 ≡ 0)
unfolding emergency_pause_call pause_handler sign start_epoch governance_config
    ensure_config_initialized emergency_pause
paused_by_quorum_example =
    paused_by_quorum 50_000 9 5 (5 ∷ 6 ∷ []) alone (omega arith)
      (record { counted = refl; none_ahead = λ v. omega arith }) refl refl
