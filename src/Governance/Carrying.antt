-- ===== src/Governance/Carrying.antt =====
-- What an execution needs and what it leaves.
use call_node.Prelude.{
  ℕ, ◌+◌, ◌≤◌, ◌<◌, ◌≡◌, ◌⊎◌, ap, refl, ◌∙◌, false, arith, if◌then◌else◌, ◌==◌, u64_max, Result, ok,
}
use call_node.Storage.{Storage, ProposalKey, slot_gov_proposal, slot_balance, u256_to_u128}
use call_node.Governance.Types.{GovError, refund_failed, call_asset_id}
use call_node.Governance.Reads.{
  read_proposal_u128, read_proposal_u8, read_proposal_u64, read_proposal_status,
  read_proposal_proposer, read_proposal_execution_data, read_proposal_count, is_paused,
}
use call_node.Governance.Voting.{refund_deposit}
use call_node.Governance.Effects.{apply_effects}
use call_node.Governance.Execution.{execution_timeout, carry_out, execute}
use call_node.Governance.Frames.{apply_effects-Keeps}
use call_node.Governance.Lifecycle.{execute_status, expire-err}

-- The native coins of an account.
abbrev pub coins : ℕ → Storage → ℕ
coins a st = u256_to_u128 (st (slot_balance call_asset_id a))

-- What is owed to the proposer: the deposit, unless the proposer is zero.
abbrev pub owed : ℕ → ℕ → Storage → ℕ
owed id a st = if a == 0 then 0 else read_proposal_u128 id ProposalKey.deposit st

-- The deposit leaves the record and is paid to the proposer.
abbrev pub IsRefunded : ℕ → ℕ → Storage → Storage → Type 0
IsRefunded id a st st' =
    (read_proposal_u128 id ProposalKey.deposit st'
      ≡ (if a == 0 then read_proposal_u128 id ProposalKey.deposit st else 0))
    × (coins a st' ≡ coins a st + owed id a st)

refunded :
    (id a : ℕ) (st : Storage)
    → (refund_deposit id a refund_failed st).0 ≡ ok tt
    → IsRefunded id a st (refund_deposit id a refund_failed st).1
unfolding refund_deposit
refunded id a st h = ground arith

-- The effects of a proposal's data on the storage.
abbrev pub effects : ℕ → Storage → Result GovError (Unit {0}) × Storage
effects id st =
    apply_effects (read_proposal_u8 id ProposalKey.proposal_type st)
      (read_proposal_execution_data id st) st

-- An execution that succeeds: in time, with the effects of the data applied, the deposit taken out
-- of the record, and the proposer's coins what the effects leave and the deposit besides.
pub record IsExecuted (id block : ℕ) (st st' : Storage) : Type 0 where
  pub known : (0 < id) × (id ≤ read_proposal_count st)
  pub running : (is_paused st ≡ false) ⊎ (read_proposal_u8 id ProposalKey.proposal_type st ≡ 5)
  pub queued : read_proposal_status id st ≡ 2
  pub unlocked : read_proposal_u64 id ProposalKey.execution_block st ≤ block
  pub in_time : block ≤ read_proposal_u64 id ProposalKey.execution_block st + execution_timeout st
  pub applied : (effects id st).0 ≡ ok tt
  pub paid :
      coins (read_proposal_proposer id st) st'
      ≡ coins (read_proposal_proposer id st) (effects id st).1
        + owed id (read_proposal_proposer id st) st
  pub deposit : read_proposal_u128 id ProposalKey.deposit st' ≡ (
      if read_proposal_proposer id st == 0 then read_proposal_u128 id ProposalKey.deposit st else 0)
  pub status : read_proposal_status id st' ≡ 3

execute_parts :
    (id block : ℕ) (st : Storage)
    → block ≤ u64_max
    → (execute id block st).0 ≡ ok tt
    → (0 < id)
      × (id ≤ read_proposal_count st)
      × ((is_paused st ≡ false) ⊎ (read_proposal_u8 id ProposalKey.proposal_type st ≡ 5))
      × (read_proposal_u64 id ProposalKey.execution_block st ≤ block)
      × (block ≤ read_proposal_u64 id ProposalKey.execution_block st + execution_timeout st)
      × ((carry_out id (read_proposal_proposer id st) st).0 ≡ ok tt)
      × ((execute id block st).1 ≡ (carry_out id (read_proposal_proposer id st) st).1)
unfolding execute
execute_parts id block st le h = ground (arith, expire-err id (read_proposal_proposer id st) st)

carried :
    (id a : ℕ) (st : Storage)
    → (carry_out id a st).0 ≡ ok tt
    → ((effects id st).0 ≡ ok tt)
      × (read_proposal_u128 id ProposalKey.deposit (carry_out id a st).1
          ≡ (if a == 0 then read_proposal_u128 id ProposalKey.deposit st else 0))
      × (coins a (carry_out id a st).1 ≡ coins a (effects id st).1 + owed id a st)
unfolding carry_out
carried id a st h =
    let t = read_proposal_u8 id ProposalKey.proposal_type st in
    let bytes = read_proposal_execution_data id st in
    ground (
      arith,
      refunded id a (effects id st).1,
      (apply_effects-Keeps (slot_gov_proposal id ProposalKey.deposit) refl t bytes).at st,
    )

-- A proposal that `execute` carries out was known and Queued, its timelock was over and its time
-- not, and the chain was not paused or it is an emergency pause; the effects of its data succeed; a
-- proposer that is not zero has after it the native coins that the effects leave and the deposit
-- besides, which is taken out of the record; and the proposal is Executed.
pub execute-IsExecuted :
    (id block : ℕ) (st : Storage)
    → block ≤ u64_max
    → (execute id block st).0 ≡ ok tt
    → IsExecuted id block st (execute id block st).1
execute-IsExecuted id block st le h =
    let (lo, hi, running, unlocked, in_time, done, same) = execute_parts id block st le h in
    let (queued, status) = execute_status id block st h in
    let (applied, deposit, paid) = carried id (read_proposal_proposer id st) st done in
    record {
      known = (lo, hi);
      running = running;
      queued = queued;
      unlocked = unlocked;
      in_time = in_time;
      applied = applied;
      paid = ap (coins (read_proposal_proposer id st)) same ∙ paid;
      deposit = ap (read_proposal_u128 id ProposalKey.deposit) same ∙ deposit;
      status = status;
    }
