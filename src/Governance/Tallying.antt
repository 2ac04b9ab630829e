-- ===== src/Governance/Tallying.antt =====
-- What a proposal needs to be queued, and what queueing sets.
use native.Mathlib.Nat.{mul-le-mul_left}
use call_node.Prelude.{
  ℕ, ◌+◌, ◌*◌, ◌^◌, ◌≤◌, ◌<◌, ◌≡◌, ◌⊎◌, ap, ◌∙◌, max, true, false, arith, if◌then◌else◌, ◌==◌,
  u64_max, u128_max, ok, saturating_add,
}
use call_node.Storage.{Storage, ProposalKey}
use call_node.Governance.Types.{}
use call_node.Governance.Reads.{
  read_vote_tally, read_proposal_u128, read_proposal_u8, read_proposal_u64, read_proposal_status,
  read_validator_count, is_paused,
}
use call_node.Governance.Voting.{
  auto_advance, require_passed, enqueue, queue, has_quorum, has_majority, majority_bps,
  timelock_blocks,
}
use call_node.Governance.Lifecycle.{queue_status}
use call_node.Governance.Advance.{auto_advance_proposal, status_after}

-- The share that the votes for must pass, in basis points: the products fit where the votes do.
majority_meaning :
    (f a bps : ℕ)
    → (f + a) * 2 ^ 32 ≤ u128_max
    → bps < 2 ^ 32
    → has_majority f a bps ≡ true
    → (f + a) * bps < f * 10_000
majority_meaning f a bps fits lt h =
    let bounded : (f + a) * bps ≤ (f + a) * 2 ^ 32 = mul-le-mul_left (f + a) (omega arith) in
    ground arith

passed-has :
    (id : ℕ) (st : Storage)
    → (require_passed id st).0 ≡ ok tt
    → let f = read_vote_tally id ProposalKey.votes_for st in
      let a = read_vote_tally id ProposalKey.votes_against st in
      let b = read_vote_tally id ProposalKey.votes_abstain st in
      (has_quorum
          (read_proposal_u128 id ProposalKey.quorum_required st)
          (read_validator_count st)
          f
          a
          (saturating_add u128_max (saturating_add u128_max f a) b)
        ≡ true)
      × (has_majority f a (majority_bps st) ≡ true)
      × ((require_passed id st).1 ≡ st)
unfolding require_passed
passed-has id st h = ground arith

-- What the votes of a proposal that passes satisfy: the quorum that is set, or without one the
-- fallback, and a majority of the votes for and against.
pub record HasPassed (id : ℕ) (st : Storage) : Type 0 where
  pub turnout :
      let f = read_vote_tally id ProposalKey.votes_for st in
      let a = read_vote_tally id ProposalKey.votes_against st in
      let b = read_vote_tally id ProposalKey.votes_abstain st in
      let q = read_proposal_u128 id ProposalKey.quorum_required st in
      (0 < q) × (q ≤ f + a + b) ⊎ (q ≡ 0) × (max 1 (read_validator_count st) ≤ f + a + b) × (a < f)
  pub majority :
      (read_vote_tally id ProposalKey.votes_for st
          + read_vote_tally id ProposalKey.votes_against st)
        * majority_bps st
      < read_vote_tally id ProposalKey.votes_for st * 10_000

passed-HasPassed :
    (id : ℕ) (st : Storage)
    → (read_vote_tally id ProposalKey.votes_for st
          + read_vote_tally id ProposalKey.votes_against st
          + read_vote_tally id ProposalKey.votes_abstain st)
        * 2 ^ 32
      ≤ u128_max
    → (require_passed id st).0 ≡ ok tt
    → HasPassed id st
passed-HasPassed id st fits h =
    let (quorum, most, same) = passed-has id st h in
    record {
      turnout = ground arith;
      majority =
          majority_meaning (read_vote_tally id ProposalKey.votes_for st)
            (read_vote_tally id ProposalKey.votes_against st) (majority_bps st) (omega arith)
            (ground arith) most;
    }

enqueued :
    (id block : ℕ) (st : Storage)
    → block ≤ u64_max
    → (enqueue id block st).0 ≡ ok tt
    → let st' = (enqueue id block st).1 in
      (read_proposal_status id st' ≡ 2)
      × (read_proposal_u64 id ProposalKey.queued_at st' ≡ block)
      × (read_proposal_u64 id ProposalKey.execution_block st' ≡ (
          if read_proposal_u8 id ProposalKey.proposal_type st == 5
          then block
          else block + timelock_blocks st))
unfolding enqueue
enqueued id block st le h = ground arith

-- What `queue` does where it succeeds.
pub record IsQueued (id block : ℕ) (st st' : Storage) : Type 0 where
  pub running : is_paused st ≡ false
  pub active : status_after id block st id ≡ 1
  pub passed : HasPassed id (auto_advance id block st).1
  pub status : read_proposal_status id st' ≡ 2
  pub queued_at : read_proposal_u64 id ProposalKey.queued_at st' ≡ block
  pub execution_block : read_proposal_u64 id ProposalKey.execution_block st' ≡ (
      if read_proposal_u8 id ProposalKey.proposal_type st == 5
      then block
      else block + timelock_blocks (auto_advance id block st).1)

queue_parts :
    (id block : ℕ) (st : Storage)
    → (queue id block st).0 ≡ ok tt
    → let active_st = (auto_advance id block st).1 in
      (is_paused st ≡ false)
      × ((require_passed id active_st).0 ≡ ok tt)
      × ((enqueue id block (require_passed id active_st).1).0 ≡ ok tt)
      × ((queue id block st).1 ≡ (enqueue id block (require_passed id active_st).1).1)
unfolding queue
queue_parts id block st h = ground (arith)

-- A proposal that `queue` accepts was Active, or Pending with its review over, on a chain that is
-- not paused; its votes, which fit with the basis points, reach the quorum and the majority; it is
-- Queued, to be executed after the timelock, or at once where it is an emergency pause.
pub queue-IsQueued :
    (id block : ℕ) (st : Storage)
    → block ≤ u64_max
    → (read_vote_tally id ProposalKey.votes_for st
          + read_vote_tally id ProposalKey.votes_against st
          + read_vote_tally id ProposalKey.votes_abstain st)
        * 2 ^ 32
      ≤ u128_max
    → (queue id block st).0 ≡ ok tt
    → IsQueued id block st (queue id block st).1
queue-IsQueued id block st le fits h =
    let active_st = (auto_advance id block st).1 in
    let (running, passed, put, same) = queue_parts id block st h in
    let (_, _, unchanged) = passed-has id active_st passed in
    let (status, at, exec) = enqueued id block (require_passed id active_st).1 le put in
    let (active, _) = queue_status id block st h in
    record {
      running = running;
      active = active;
      passed =
          passed-HasPassed id active_st
            (ground (
              arith,
              auto_advance_proposal id id block ProposalKey.votes_for st,
              auto_advance_proposal id id block ProposalKey.votes_against st,
              auto_advance_proposal id id block ProposalKey.votes_abstain st,
            ))
            passed;
      status = ap (read_proposal_status id) same ∙ status;
      queued_at = ap (read_proposal_u64 id ProposalKey.queued_at) same ∙ at;
      execution_block =
          ap (read_proposal_u64 id ProposalKey.execution_block) same ∙ exec ∙ due unchanged;
    }
  where
    due :
        (require_passed id (auto_advance id block st).1).1 ≡ (auto_advance id block st).1
        → (if read_proposal_u8 id ProposalKey.proposal_type
                (require_passed id (auto_advance id block st).1).1
              == 5
            then block
            else block + timelock_blocks (require_passed id (auto_advance id block st).1).1)
          ≡ (if read_proposal_u8 id ProposalKey.proposal_type st == 5
              then block
              else block + timelock_blocks (auto_advance id block st).1)
    due unchanged =
        rw unchanged
          (ground (arith, auto_advance_proposal id id block ProposalKey.proposal_type st))
