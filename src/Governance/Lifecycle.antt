-- ===== src/Governance/Lifecycle.antt =====
-- The states that a proposal goes through: 0 Pending, 1 Active, 2 Queued, 3 Executed, 4 Defeated,
-- 6 Expired.
use call_node.Prelude.{
  ℕ, leb, ◌≤◌, ◌<◌, ◌≡◌, ◌≢◌, sym, subst, ◌⊎◌, inl, inr, refl, ◌∙◌, ap, Bool, true, false, List,
  arith, u64_max, Result, ok, ◌==◌, Bool-cases, ==_iff, ==_refl, ◌&&◌,
}
use call_node.Storage.{Storage, ProposalKey, slot_gov_proposal, u256_to_u8}
use call_node.Governance.Types.{GovError}
use call_node.Governance.Reads.{
  Act, read_proposal_count, read_proposal_status, read_proposal_u64, read_proposal_proposer,
}
use call_node.Governance.Voting.{
  auto_advance, record_vote, vote, require_passed, enqueue, queue, cancel_proposal,
}
use call_node.Governance.Execution.{execute, carry_out, expire}
use call_node.Governance.Entry.{
  mutate_void, vote_call, queue_call, queue_handler, execute_call, execute_handler,
  cancel_proposal_call, cancel_handler,
}
use call_node.Governance.Advance.{status_after, auto_advance_status}
use call_node.Governance.Ballots.{vote-cases}
use call_node.Governance.Calls.{Call, run_call, run_call_apart, IsApart}
use call_node.Governance.Counting.{}
use call_node.Governance.Elections.{vote_call-cases}

-- The steps of a proposal by one call.
pub data Step : ℕ → ℕ → Type 0 where
  stays : (s : ℕ) → Step s s
  opens : Step 0 1
  passes_at_once : Step 0 2
  passes : Step 1 2
  is_executed : Step 2 3
  is_cancelled : Step 0 4

-- A call that failed changed nothing.
pub mutate_void-cases :
    (gas gas_left : ℕ) (m : Act (Unit {0})) (st : Storage)
    → ((mutate_void gas gas_left m st).1 ≡ st)
      ⊎ ((m st).0 ≡ ok tt) × ((mutate_void gas gas_left m st).1 ≡ (m st).1)
mutate_void-cases gas gas_left m st = ground arith

record_vote_status :
    (id val voter power : ℕ) (st : Storage)
    → read_proposal_status id (record_vote id val voter power st).1 ≡ read_proposal_status id st
unfolding record_vote
record_vote_status id val voter power st = ground arith

vote_status :
    (id val voter power block : ℕ) (st : Storage)
    → (read_proposal_status id (vote id val voter power block st).1 ≡ read_proposal_status id st)
      ⊎ (read_proposal_status id (vote id val voter power block st).1 ≡ status_after id block st id)
vote_status id val voter power block st = ground (
  arith,
  vote-cases id val voter power block st,
  auto_advance_status id id block st,
  record_vote_status id val voter power (auto_advance id block st).1,
)

enqueue_status :
    (id block : ℕ) (st : Storage)
    → (enqueue id block st).0 ≡ ok tt
    → read_proposal_status id (enqueue id block st).1 ≡ 2
unfolding enqueue
enqueue_status id block st h = ground arith

pub queue_status :
    (id block : ℕ) (st : Storage)
    → (queue id block st).0 ≡ ok tt
    → (status_after id block st id ≡ 1) × (read_proposal_status id (queue id block st).1 ≡ 2)
unfolding queue
queue_status id block st h =
    let advanced = (auto_advance id block st).1 in
    ground (
      arith,
      auto_advance_status id id block st,
      enqueue_status id block (require_passed id advanced).1,
    )

pub cancel_status :
    (id caller : ℕ) (st : Storage)
    → (cancel_proposal id caller st).0 ≡ ok tt
    → (read_proposal_status id st ≡ 0)
      × (read_proposal_status id (cancel_proposal id caller st).1 ≡ 4)
unfolding cancel_proposal
cancel_status id caller st h = ground arith

carry_out_status :
    (id a : ℕ) (st : Storage)
    → (carry_out id a st).0 ≡ ok tt
    → read_proposal_status id (carry_out id a st).1 ≡ 3
unfolding carry_out
carry_out_status id a st h = ground arith

pub expire-err : (id a : ℕ) (st : Storage) → (expire id a st).0 ≢ ok tt
unfolding expire
expire-err id a st h = ground arith

pub execute_status :
    (id block : ℕ) (st : Storage)
    → (execute id block st).0 ≡ ok tt
    → (read_proposal_status id st ≡ 2) × (read_proposal_status id (execute id block st).1 ≡ 3)
unfolding execute
execute_status id block st h =
    let a = read_proposal_proposer id st in
    ground (arith, carry_out_status id a st, expire-err id a st)

Step_to : {s t u : ℕ} → Step s t → u ≡ t → Step s u
Step_to {s = s} e h = subst (Step s) (sym h) e

-- Pending may have become Active.
opened :
    (id block : ℕ) (st : Storage) → Step (read_proposal_status id st) (status_after id block st id)
opened id block st = elim (Bool-cases (id == id && due)) [
  | inl h ↦ rw (h, pending h) opens
  | inr h ↦ rw h (stays _)
]
  where
    due : Bool
    due =
        read_proposal_status id st == 0
        && leb (read_proposal_u64 id ProposalKey.start_block st) block

    pending : (id == id && due) ≡ true → read_proposal_status id st ≡ 0
    pending h = ground arith

vote-Step :
    (gas id val sender block : ℕ) (st : Storage)
    → Step
        (read_proposal_status id st)
        (read_proposal_status id (vote_call gas id val sender block st).1)
vote-Step gas id val sender block st = elim (vote_call-cases gas id val sender block st) [
  | inl same ↦ Step_to (stays _) (ap (read_proposal_status id) same)
  | inr voted ↦ elim (vote_status id val sender _ block st) [
    | inl kept ↦ Step_to (stays _) (ap (read_proposal_status id) voted ∙ kept)
    | inr opening ↦ Step_to (opened id block st) (ap (read_proposal_status id) voted ∙ opening)
  ]
]

-- A call whose handler succeeds as an operation does takes the step of the operation.
module _ (id gas gas_left : ℕ) (m op : Act (Unit {0})) (st : Storage) where
  handled :
      ((m st).0 ≡ ok tt → m st ≡ op st)
      → ((op st).0 ≡ ok tt → Step (read_proposal_status id st) (read_proposal_status id (op st).1))
      → Step
          (read_proposal_status id st)
          (read_proposal_status id (mutate_void gas gas_left m st).1)
  handled agree f = elim (mutate_void-cases gas gas_left m st) [
    | inl same ↦ Step_to (stays _) (ap (read_proposal_status id) same)
    | inr (done, same) ↦
        let e = agree done in
        Step_to (f (sym (ap reply e) ∙ done)) (ap (read_proposal_status id) same ∙ ap status e)
  ]
    where
      reply : Result GovError (Unit {0}) × Storage → Result GovError (Unit {0})
      reply x = x.0

      status : Result GovError (Unit {0}) × Storage → ℕ
      status x = read_proposal_status id x.1

queue_handler-ok :
    (id sender block : ℕ) (st : Storage)
    → (queue_handler id sender block st).0 ≡ ok tt
    → queue_handler id sender block st ≡ queue id block st
unfolding queue_handler
queue_handler-ok id sender block st h = ground arith

execute_handler-ok :
    (id sender block : ℕ) (st : Storage)
    → (execute_handler id sender block st).0 ≡ ok tt
    → execute_handler id sender block st ≡ execute id block st
unfolding execute_handler
execute_handler-ok id sender block st h = ground arith

cancel_handler-ok :
    (id sender : ℕ) (st : Storage)
    → (cancel_handler id sender st).0 ≡ ok tt
    → cancel_handler id sender st ≡ cancel_proposal id sender st
unfolding cancel_handler
cancel_handler-ok id sender st h = ground arith

-- A step by the statuses before and after.
step_between : {s t : ℕ} (a b : ℕ) → Step a b → s ≡ a → t ≡ b → Step s t
step_between {s = s} {t = t} a b e p q = subst (λ x. Step x t) (sym p) (Step_to e q)

queued :
    (id block : ℕ) (st : Storage) (t : ℕ)
    → status_after id block st id ≡ 1
    → t ≡ 2
    → Step (read_proposal_status id st) t
queued id block st t h e = elim (Bool-cases (read_proposal_status id st == 0)) [
  | inl pending ↦ step_between 0 2 passes_at_once (ground arith) e
  | inr active ↦ step_between 1 2 passes (ground arith) e
]

module _ (keccak256 : List ℕ → ℕ) (id : ℕ) where
  untouched :
      (c : Call) (st : Storage)
      → id ≤ read_proposal_count st
      → read_proposal_count st < u64_max
      → IsApart true id c
      → Step (read_proposal_status id st) (read_proposal_status id (run_call keccak256 c st).1)
  untouched c st le lt o = Step_to (stays _) (
      ap u256_to_u8 (
        run_call_apart keccak256 false true id (slot_gov_proposal id ProposalKey.status) c st
          (==_refl id) refl le lt o))

  -- A call on a proposal, which may be this one.
  by_target :
      (q : ℕ) (st : Storage) (after : ℕ → Storage)
      → Step (read_proposal_status id st) (read_proposal_status id (after id))
      → ((q == id) ≡ false → Step (read_proposal_status id st) (read_proposal_status id (after q)))
      → Step (read_proposal_status id st) (read_proposal_status id (after q))
  by_target q st after own other = elim (Bool-cases (q == id)) [
    | inl same ↦
        subst (λ x. Step (read_proposal_status id st) (read_proposal_status id (after x)))
          (sym ((==_iff q id).0 same)) own
    | inr differ ↦ other differ
  ]

  -- One call.
  pub call-Step :
      (c : Call) (st : Storage)
      → id ≤ read_proposal_count st
      → read_proposal_count st < u64_max
      → Step (read_proposal_status id st) (read_proposal_status id (run_call keccak256 c st).1)
  unfolding run_call queue_call execute_call cancel_proposal_call
  call-Step (Call.submit a b c d e f g h) st le lt =
      untouched (Call.submit a b c d e f g h) st le lt tt
  call-Step (Call.vote gas q val sender block) st le lt =
      by_target q st (λ x. (vote_call gas x val sender block st).1)
        (vote-Step gas id val sender block st)
        (untouched (Call.vote gas q val sender block) st le lt)
  call-Step (Call.queue gas q sender block) st le lt =
      by_target q st (λ x. (queue_call gas x sender block st).1)
        (handled id 20_000 gas (queue_handler id sender block) (queue id block) st
          (queue_handler-ok id sender block st)
          (λ done.
            let (before, after) = queue_status id block st done in
            queued id block st _ before after))
        (untouched (Call.queue gas q sender block) st le lt)
  call-Step (Call.execute gas q sender block) st le lt =
      by_target q st (λ x. (execute_call gas x sender block st).1)
        (handled id _ gas (execute_handler id sender block) (execute id block) st
          (execute_handler-ok id sender block st)
          (λ done.
            let (before, after) = execute_status id block st done in
            step_between 2 3 is_executed before after))
        (untouched (Call.execute gas q sender block) st le lt)
  call-Step (Call.cancel gas q sender) st le lt =
      by_target q st (λ x. (cancel_proposal_call gas x sender st).1)
        (handled id 20_000 gas (cancel_handler id sender) (cancel_proposal id sender) st
          (cancel_handler-ok id sender st)
          (λ done.
            let (before, after) = cancel_status id sender st done in
            step_between 0 4 is_cancelled before after))
        (untouched (Call.cancel gas q sender) st le lt)
  call-Step (Call.pause gas reason sender) st le lt =
      untouched (Call.pause gas reason sender) st le lt tt
  call-Step (Call.resume gas sender) st le lt = untouched (Call.resume gas sender) st le lt tt
