-- ===== src/Governance/Trails.antt =====
-- The way of a proposal through any sequence of calls of the precompile.
use call_node.Prelude.{
  ℕ, ◌+◌, ◌≤◌, ◌<◌, ◌≡◌, sym, subst, refl, ◌∙◌, List, [], ◌∷◌, arith, u64_max, length,
}
use call_node.Storage.{Storage}
use call_node.Governance.Reads.{read_proposal_count, read_proposal_status}
use call_node.Governance.Calls.{Call, run_call}
use call_node.Governance.Counting.{Grows, call_counts}
use call_node.Governance.Elections.{run_calls}
use call_node.Governance.Lifecycle.{
  Step, stays, opens, passes_at_once, passes, is_executed, is_cancelled, call-Step,
}

-- Steps, one after the other.
pub data Trail : ℕ → ℕ → Type 0 where
  ends : (s : ℕ) → Trail s s
  goes : {s t u : ℕ} → Step s t → Trail t u → Trail s u

-- The status of a proposal that is there moves along its steps, whatever calls of the precompile
-- are made, as long as they are fewer than the proposals that the counter has left.
pub run_calls-Trail :
    (keccak256 : List ℕ → ℕ) (id : ℕ) (cs : List Call) (st : Storage)
    → id ≤ read_proposal_count st
    → read_proposal_count st + length cs < u64_max
    → Trail (read_proposal_status id st) (read_proposal_status id (run_calls keccak256 cs st))
unfolding run_calls
run_calls-Trail keccak256 id [] st le lt = ends _
run_calls-Trail keccak256 id (c ∷ cs) st le lt =
    let grown : Grows st (run_call keccak256 c st).1 = call_counts keccak256 c st (omega arith) in
    goes (call-Step keccak256 id c st le (omega arith)) (
      run_calls-Trail keccak256 id cs (run_call keccak256 c st).1 (omega (arith, grown.0))
        (omega (arith, grown.1)))

Step-settled : {s t : ℕ} → Step s t → 3 ≤ s → t ≡ s
Step-settled (stays s) h = refl
Step-settled opens h = ground arith
Step-settled passes_at_once h = ground arith
Step-settled passes h = ground arith
Step-settled is_executed h = ground arith
Step-settled is_cancelled h = ground arith

Trail-settled : {s t : ℕ} → Trail s t → 3 ≤ s → t ≡ s
Trail-settled (ends s) h = refl
Trail-settled (goes e trail) h =
    Trail-settled trail (subst (λ x. 3 ≤ x) (sym (Step-settled e h)) h) ∙ Step-settled e h

-- A proposal that is executed, defeated or expired stays so, whatever calls are made, as long as
-- they are fewer than the proposals that the counter has left: none is executed twice.
pub settled_stays :
    (keccak256 : List ℕ → ℕ) (id : ℕ) (cs : List Call) (st : Storage)
    → id ≤ read_proposal_count st
    → read_proposal_count st + length cs < u64_max
    → 3 ≤ read_proposal_status id st
    → read_proposal_status id (run_calls keccak256 cs st) ≡ read_proposal_status id st
settled_stays keccak256 id cs st le lt h =
    Trail-settled (run_calls-Trail keccak256 id cs st le lt) h

Step-active : {s t : ℕ} → Step s t → (1 ≤ s) × (s ≤ 3) → (1 ≤ t) × (t ≤ 3)
Step-active (stays s) h = h
Step-active opens h = ground arith
Step-active passes_at_once h = ground arith
Step-active passes h = ground arith
Step-active is_executed h = ground arith
Step-active is_cancelled h = ground arith

Trail-active : {s t : ℕ} → Trail s t → (1 ≤ s) × (s ≤ 3) → (1 ≤ t) × (t ≤ 3)
Trail-active (ends s) h = h
Trail-active (goes e trail) h = Trail-active trail (Step-active e h)

-- The calls of the precompile never make a proposal that is active or queued defeated or expired,
-- as long as they are fewer than the proposals that the counter has left: the call that marks it
-- fails, and what it wrote is undone.
pub never_defeated :
    (keccak256 : List ℕ → ℕ) (id : ℕ) (cs : List Call) (st : Storage)
    → id ≤ read_proposal_count st
    → read_proposal_count st + length cs < u64_max
    → 1 ≤ read_proposal_status id st
    → read_proposal_status id st ≤ 3
    → (1 ≤ read_proposal_status id (run_calls keccak256 cs st))
      × (read_proposal_status id (run_calls keccak256 cs st) ≤ 3)
never_defeated keccak256 id cs st le lt lo hi =
    Trail-active (run_calls-Trail keccak256 id cs st le lt) (lo, hi)
