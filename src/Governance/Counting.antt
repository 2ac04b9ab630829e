-- ===== src/Governance/Counting.antt =====
-- The number of the proposals only grows, by one with a submission.
use call_node.Prelude.{
  ℕ, suc, ◌+◌, ◌%◌, ◌^◌, ◌≤◌, ◌<◌, ◌≡◌, ◌⊎◌, refl, true, false, List, arith, u64_max, Result, ok,
  err,
}
use call_node.Storage.{Storage, ConfigKey, store, slot_gov_proposal_count}
use call_node.Governance.Types.{GovError}
use call_node.Governance.Reads.{read_proposal_count, read_config_u64}
use call_node.Governance.Submission.{open_submission, write_record, file_proposal, submit_proposal}
use call_node.Governance.Entry.{submit_handler, submit_proposal_call}
use call_node.Governance.Frames.{open_submission-Keeps}
use call_node.Governance.Untouched.{write_record-Keeps}
use call_node.Governance.Calls.{Call, run_call, run_call-Keeps}

-- The count stays or goes up by one.
abbrev pub Grows : Storage → Storage → Type 0
Grows st st' =
    (read_proposal_count st ≤ read_proposal_count st')
    × (read_proposal_count st' ≤ suc (read_proposal_count st))

module _ (keccak256 : List ℕ → ℕ) where
  filed_count :
      (t : ℕ) (title description bytes : List ℕ) (a block new : ℕ) (st : Storage)
      → ((file_proposal keccak256 t title description bytes a block new st).1
            slot_gov_proposal_count
          ≡ st slot_gov_proposal_count)
        ⊎ ((file_proposal keccak256 t title description bytes a block new st).1
              slot_gov_proposal_count
            ≡ new)
  unfolding file_proposal
  filed_count t title description bytes a block new st = ground (
    arith,
    kept review (block + review) (block + review + read_config_u64 ConfigKey.voting_period st),
  )
    where
      review : ℕ
      review = read_config_u64 ConfigKey.review_period st

      kept :
          (r s e : ℕ)
          → (write_record keccak256 t title description bytes a block r s e new
                (store slot_gov_proposal_count new st)).1
              slot_gov_proposal_count
            ≡ new
      kept r s e =
          (write_record-Keeps true false (suc new) slot_gov_proposal_count refl keccak256 t title
              description bytes a block r s e new (ground arith) refl).at
            _

  submission_counts :
      (t : ℕ) (title description bytes : List ℕ) (a block : ℕ) (st : Storage)
      → read_proposal_count st < u64_max
      → Grows st (submit_proposal keccak256 t title description bytes a block st).1
  unfolding submit_proposal
  submission_counts t title description bytes a block st lt =
      go (open_submission t bytes a block st).0 (open_submission t bytes a block st).1
        ((open_submission-Keeps slot_gov_proposal_count refl t bytes a block).at st)
    where
      go :
          (r : Result GovError (Unit {0})) (st' : Storage)
          → st' slot_gov_proposal_count ≡ st slot_gov_proposal_count
          → (let next =
                file_proposal keccak256 t title description bytes a block
                  ((read_proposal_count st' + 1) % 2 ^ 64) in
              let out : Result GovError ℕ × Storage = elim r [
                | ok _ ↦ next st'
                | err e ↦ (err e, st')
              ] in
              Grows st out.1)
      go (ok _) st' n = ground (
        arith,
        filed_count t title description bytes a block ((read_proposal_count st' + 1) % 2 ^ 64) st',
      )
      go (err e) st' n = ground arith

  -- Every call.
  pub call_counts :
      (c : Call) (st : Storage)
      → read_proposal_count st < u64_max
      → Grows st (run_call keccak256 c st).1
  unfolding run_call submit_proposal_call submit_handler
  call_counts (Call.submit len gas t title description bytes sender block) st lt =
      ground (arith, submission_counts t title description bytes sender block st lt)
  call_counts (Call.vote gas q val sender block) st lt = ground (
    arith,
    (run_call-Keeps keccak256 true false (suc q) slot_gov_proposal_count
          (Call.vote gas q val sender block) refl refl (ground arith)).at
        st,
  )
  call_counts (Call.queue gas q sender block) st lt = ground (
    arith,
    (run_call-Keeps keccak256 true false 0 slot_gov_proposal_count (Call.queue gas q sender block)
          refl refl refl).at
        st,
  )
  call_counts (Call.execute gas q sender block) st lt = ground (
    arith,
    (run_call-Keeps keccak256 true false 0 slot_gov_proposal_count (Call.execute gas q sender block)
          refl refl refl).at
        st,
  )
  call_counts (Call.cancel gas q sender) st lt = ground (
    arith,
    (run_call-Keeps keccak256 true false 0 slot_gov_proposal_count (Call.cancel gas q sender) refl
          refl refl).at
        st,
  )
  call_counts (Call.pause gas reason sender) st lt = ground (
    arith,
    (run_call-Keeps keccak256 true false 0 slot_gov_proposal_count (Call.pause gas reason sender)
          refl refl tt).at
        st,
  )
  call_counts (Call.resume gas sender) st lt = ground (
    arith,
    (run_call-Keeps keccak256 true false 0 slot_gov_proposal_count (Call.resume gas sender) refl
          refl tt).at
        st,
  )
