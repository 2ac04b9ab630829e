-- ===== src/Governance/Calls.antt =====
-- The calls of the precompile, and which slots each leaves alone.
use mathlib.Core.Bool.{false≢true}
use call_node.Prelude.{
  ℕ, ◌+◌, ◌%◌, ◌^◌, ◌≤◌, ◌<◌, ◌≡◌, sym, refl, ◌∙◌, Bool, true, false, ◌&&◌, not, List, ◌==◌,
  if◌then◌else◌, arith, u64_max, leb, Result, ok, err,
}
use call_node.Storage.{
  Slot, Storage, slot_gov_proposal_count, Keeps, Keeps-bind, Keeps-then, ◌>>◌, Keeps-gets,
  Keeps-throw_if, Keeps-if, Keeps-return, throw_if, gets, keeps_rules,
}
use call_node.Governance.Types.{GovError, out_of_gas, not_paused, not_a_validator}
use call_node.Governance.Reads.{Act, is_paused, read_proposal_count, read_proposal_data_len}
use call_node.Governance.Submission.{open_submission, file_proposal, submit_proposal}
use call_node.Governance.Emergency.{sign, emergency_resume, next_round, resuming}
use call_node.Governance.Entry.{
  is_validator, mutate_void, require_caller, execution_gas, submit_handler, vote_handler,
  queue_handler, execute_handler, cancel_handler, pause_handler, resume_by, resume_handler,
  submit_proposal_call, vote_call, queue_call, execute_call, cancel_proposal_call,
  emergency_pause_call, emergency_resume_call,
}
use call_node.Governance.Frames.{open_submission-Keeps}
use call_node.Governance.Untouched.{
  is_kept, is_kept-is_record, vote-Keeps, queue-Keeps, execute-Keeps, cancel_proposal-Keeps,
  emergency_pause-Keeps, emergency_resume-Keeps, next_round-Keeps, sign-Keeps, file_proposal-Keeps,
}

-- A call with the gas that is left for it.
pub data Call : Type 0 where
  submit :
      (calldata_len gas proposal_type : ℕ) (title description execution_data : List ℕ)
      (sender block : ℕ)
      → Call
  vote : (gas proposal_id vote_val sender block : ℕ) → Call
  queue execute : (gas proposal_id sender block : ℕ) → Call
  cancel : (gas proposal_id sender : ℕ) → Call
  pause : (gas reason sender : ℕ) → Call
  resume : (gas sender : ℕ) → Call

-- The call, for its effect.
unfoldable pub run_call : (List ℕ → ℕ) → Call → Act (Unit {0})
unfolding submit_proposal_call vote_call queue_call execute_call cancel_proposal_call
    emergency_pause_call emergency_resume_call
run_call keccak256 (submit len gas t title description execution_data sender block) =
    submit_proposal_call keccak256 len gas t title description execution_data sender block
run_call keccak256 (vote gas id val sender block) = vote_call gas id val sender block
run_call keccak256 (queue gas id sender block) = queue_call gas id sender block
run_call keccak256 (execute gas id sender block) = execute_call gas id sender block
run_call keccak256 (cancel gas id sender) = cancel_proposal_call gas id sender
run_call keccak256 (pause gas reason sender) = emergency_pause_call gas reason sender
run_call keccak256 (resume gas sender) = emergency_resume_call gas sender

Keeps-mutate_void :
    {p : Slot} (gas gas_left : ℕ) (m : Act (Unit {0}))
    → Keeps p m
    → Keeps p (mutate_void gas gas_left m)
Keeps-mutate_void {p = p} gas gas_left m k = record { at = λ st. go st (m st).0 (m st).1 (k.at st) }
  where
    go :
        (st : Storage) (r : Result GovError (Unit {0})) (st' : Storage)
        → st' p ≡ st p
        → (let out : Result GovError (Unit {0}) × Storage = elim r [
          | ok _ ↦ if leb gas gas_left then (ok tt, st') else (err out_of_gas, st)
          | err e ↦ (err e, st)
        ] in
            out.1 p ≡ st p)
    go st (ok _) st' h = ground arith
    go st (err e) st' h = refl

-- The call is no vote on the proposal and, where `all` is asked for, no other call on it.
abbrev pub IsApart : Bool → ℕ → Call → Type 0
IsApart all id (vote _ q _ _ _) = (q == id) ≡ false
IsApart all id (queue _ q _ _) = (all && q == id) ≡ false
IsApart all id (execute _ q _ _) = (all && q == id) ≡ false
IsApart all id (cancel _ q _) = (all && q == id) ≡ false
IsApart all id _ = Unit

abbrev pub is_submission : Call → Bool
is_submission (submit _ _ _ _ _ _ _ _) = true
is_submission _ = false

module _ (keccak256 : List ℕ → ℕ) (count all : Bool) (id : ℕ) (p : Slot) where
  -- A submission leaves the proposals that are there alone.
  submit_proposal_apart :
      (t : ℕ) (title description bytes : List ℕ) (a block : ℕ) (st : Storage)
      → is_kept count all id p ≡ true
      → count ≡ false
      → id ≤ read_proposal_count st
      → read_proposal_count st < u64_max
      → (submit_proposal keccak256 t title description bytes a block st).1 p ≡ st p
  unfolding submit_proposal
  submit_proposal_apart t title description bytes a block st h c le lt =
      go (open_submission t bytes a block st).0 (open_submission t bytes a block st).1
        ((open_submission-Keeps p (is_kept-is_record count all id p h) t bytes a block).at st)
        ((open_submission-Keeps slot_gov_proposal_count refl t bytes a block).at st)
    where
      go :
          (r : Result GovError (Unit {0})) (st' : Storage)
          → st' p ≡ st p
          → st' slot_gov_proposal_count ≡ st slot_gov_proposal_count
          → (let next =
                file_proposal keccak256 t title description bytes a block
                  ((read_proposal_count st' + 1) % 2 ^ 64) in
              let out : Result GovError ℕ × Storage = elim r [
                | ok _ ↦ next st'
                | err e ↦ (err e, st')
              ] in
              out.1 p ≡ st p)
      go (ok _) st' k n =
          (file_proposal-Keeps count all id p h keccak256 t title description bytes a block
              ((read_proposal_count st' + 1) % 2 ^ 64) (ground arith) (ground arith) c).at
            st'
          ∙ k
      go (err e) st' k n = k

  vote_handler-Keeps :
      (q val sender block : ℕ)
      → is_kept count all id p ≡ true
      → (q == id) ≡ false
      → (all && q == id) ≡ false
      → Keeps p (vote_handler q val sender block)
  unfolding vote_handler
  vote_handler-Keeps q val sender block h o a_o =
      search (keeps_rules, vote-Keeps count all id p h) depth 40

  queue_handler-Keeps :
      (q sender block : ℕ)
      → is_kept count all id p ≡ true
      → (all && q == id) ≡ false
      → Keeps p (queue_handler q sender block)
  unfolding queue_handler
  queue_handler-Keeps q sender block h o =
      search (keeps_rules, queue-Keeps count all id p h) depth 40

  execute_handler-Keeps :
      (q sender block : ℕ)
      → is_kept count all id p ≡ true
      → (all && q == id) ≡ false
      → Keeps p (execute_handler q sender block)
  unfolding execute_handler
  execute_handler-Keeps q sender block h o =
      search (keeps_rules, execute-Keeps count all id p h) depth 40

  cancel_handler-Keeps :
      (q sender : ℕ)
      → is_kept count all id p ≡ true
      → (all && q == id) ≡ false
      → Keeps p (cancel_handler q sender)
  unfolding cancel_handler
  cancel_handler-Keeps q sender h o =
      search (keeps_rules, cancel_proposal-Keeps count all id p h) depth 40

  pause_handler-Keeps :
      (reason sender : ℕ) → is_kept count all id p ≡ true → Keeps p (pause_handler reason sender)
  unfolding pause_handler
  pause_handler-Keeps reason sender h =
      search
        (
          keeps_rules,
          emergency_pause-Keeps count all id p h,
          sign-Keeps count all id p h,
          next_round-Keeps count all id p h,
        )
        depth 40

  emergency_resume_then-Keeps :
      is_kept count all id p ≡ true → Keeps p (emergency_resume >> next_round resuming)
  emergency_resume_then-Keeps h =
      Keeps-then emergency_resume (next_round resuming) (emergency_resume-Keeps count all id p h)
        (next_round-Keeps count all id p h resuming)

  resume_by-Keeps : (caller : ℕ) → is_kept count all id p ≡ true → Keeps p (resume_by caller)
  unfolding resume_by
  resume_by-Keeps caller h = Keeps-bind (gets is_paused) _ (Keeps-gets is_paused) (λ paused.
      Keeps-bind (throw_if (not paused) not_paused) _ (Keeps-throw_if _ _) (λ _.
        Keeps-bind (gets (is_validator caller)) _ (Keeps-gets _) (λ validator.
          Keeps-bind (throw_if (not validator) not_a_validator) _ (Keeps-throw_if _ _) (λ _.
            Keeps-bind (sign resuming caller) _ (sign-Keeps count all id p h resuming caller)
              (λ r. Keeps-if r _ _ (emergency_resume_then-Keeps h) (Keeps-return tt))))))

  resume_handler-Keeps :
      (sender : ℕ) → is_kept count all id p ≡ true → Keeps p (resume_handler sender)
  unfolding resume_handler
  resume_handler-Keeps sender h =
      Keeps-bind (require_caller sender) resume_by (search (keeps_rules) depth 40)
        (λ caller. resume_by-Keeps caller h)

  pub run_call-Keeps :
      (c : Call)
      → is_kept count all id p ≡ true
      → is_submission c ≡ false
      → IsApart all id c
      → Keeps p (run_call keccak256 c)
  unfolding run_call vote_call queue_call execute_call cancel_proposal_call emergency_pause_call
      emergency_resume_call
  run_call-Keeps (submit _ _ _ _ _ _ _ _) h s o = absurd (false≢true (sym s))
  run_call-Keeps (vote gas q val sender block) h s o =
      Keeps-mutate_void 10_000 gas (vote_handler q val sender block)
        (vote_handler-Keeps q val sender block h o (ground arith))
  run_call-Keeps (queue gas q sender block) h s o =
      Keeps-mutate_void 20_000 gas (queue_handler q sender block)
        (queue_handler-Keeps q sender block h o)
  run_call-Keeps (execute gas q sender block) h s o =
      Keeps-bind (gets (read_proposal_data_len q)) _ (Keeps-gets _) (λ data_len.
        Keeps-mutate_void (execution_gas data_len) gas (execute_handler q sender block)
          (execute_handler-Keeps q sender block h o))
  run_call-Keeps (cancel gas q sender) h s o =
      Keeps-mutate_void 20_000 gas (cancel_handler q sender) (cancel_handler-Keeps q sender h o)
  run_call-Keeps (pause gas reason sender) h s o =
      Keeps-mutate_void 30_000 gas (pause_handler reason sender)
        (pause_handler-Keeps reason sender h)
  run_call-Keeps (resume gas sender) h s o =
      Keeps-mutate_void 20_000 gas (resume_handler sender) (resume_handler-Keeps sender h)

  -- Any call that is no vote on the proposal leaves the slots alone.
  pub run_call_apart :
      (c : Call) (st : Storage)
      → is_kept count all id p ≡ true
      → count ≡ false
      → id ≤ read_proposal_count st
      → read_proposal_count st < u64_max
      → IsApart all id c
      → (run_call keccak256 c st).1 p ≡ st p
  unfolding run_call submit_proposal_call submit_handler
  run_call_apart (submit len gas t title description bytes sender block) st h z le lt o =
      ground (arith, submit_proposal_apart t title description bytes sender block st h z le lt)
  run_call_apart (vote gas q val sender block) st h z le lt o =
      (run_call-Keeps (vote gas q val sender block) h refl o).at st
  run_call_apart (queue gas q sender block) st h z le lt o =
      (run_call-Keeps (queue gas q sender block) h refl o).at st
  run_call_apart (execute gas q sender block) st h z le lt o =
      (run_call-Keeps (execute gas q sender block) h refl o).at st
  run_call_apart (cancel gas q sender) st h z le lt o =
      (run_call-Keeps (cancel gas q sender) h refl o).at st
  run_call_apart (pause gas reason sender) st h z le lt o =
      (run_call-Keeps (pause gas reason sender) h refl o).at st
  run_call_apart (resume gas sender) st h z le lt o =
      (run_call-Keeps (resume gas sender) h refl o).at st
