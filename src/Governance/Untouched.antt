-- ===== src/Governance/Untouched.antt =====
-- The operations that leave the ballots of a proposal alone: all but its votes.
use call_node.Governance.Types.{GovError}
use call_node.Governance.Effects.{apply_effects}
use call_node.Prelude.{
  ℕ, ◌+◌, ◌≡◌, arith, refl, Bool, true, false, List, [], ◌∷◌, ◌==◌, ◌&&◌, if◌then◌else◌,
}
use call_node.Storage.{
  Slot, ProposalKey, slot_gov_proposal, slot_gov_voter, slot_gov_voter_vote,
  slot_gov_proposal_count, Keeps, Keeps-write, Keeps-then, slot_gov_proposal_data_chunk,
  keeps_rules, write,
}
use call_node.Asset.Store.{read_balance, write_balance, add_balance, deduct_balance}
use call_node.Governance.Submission.{
  ensure_config_initialized, governance_config, compute_and_set_quorum, mark_defeated, write_chunks,
  write_content, finish_record, open_ballot, write_schedule, chunk_word, write_record,
  file_proposal,
}
use call_node.Governance.Voting.{
  auto_advance, tally_suffix, record_vote, require_open, vote, require_passed, enqueue, queue,
  refund_deposit, cancel_proposal,
}
use call_node.Governance.Execution.{expire, carry_out, execute}
use call_node.Governance.Emergency.{
  Alarm, pausing, resuming, emergency_pause, emergency_resume, start_epoch, sign, next_round,
}
use call_node.Governance.Frames.{is_record, apply_effects-Keeps as framed-Keeps}

abbrev pub is_tally : ProposalKey → Bool
is_tally ProposalKey.votes_for = true
is_tally ProposalKey.votes_against = true
is_tally ProposalKey.votes_abstain = true
is_tally _ = false

-- The slots of a proposal's ballots; with `all`, those of its whole record, and with `count` the
-- number of the proposals.
abbrev pub is_kept : (count all : Bool) (id : ℕ) → Slot → Bool
is_kept count all id slot_gov_proposal_count = count
is_kept count all id (slot_gov_proposal q k) = if is_tally k then q == id else all && q == id
is_kept count all id (slot_gov_voter q _) = q == id
is_kept count all id (slot_gov_voter_vote q _) = q == id
is_kept count all id _ = false

pub is_kept-is_record :
    (count all : Bool) (id : ℕ) (p : Slot) → is_kept count all id p ≡ true → is_record p ≡ true
is_kept-is_record count all id p h = ground arith

module _ (count all : Bool) (id : ℕ) (p : Slot) (h : is_kept count all id p ≡ true) where
  write_apart :
      {E : Type 0} (q : Slot) (v : ℕ) → is_kept count all id q ≡ false → Keeps {E = E} p (write q v)
  write_apart q v o = Keeps-write (is_kept count all id) q v h o

  ensure_config_initialized-Keeps : Keeps p ensure_config_initialized
  unfolding ensure_config_initialized
  ensure_config_initialized-Keeps = search (keeps_rules, write_apart) depth 30

  governance_config-Keeps : Keeps p governance_config
  unfolding governance_config
  governance_config-Keeps = search (keeps_rules, ensure_config_initialized-Keeps) depth 30

  compute_and_set_quorum-Keeps :
      (q : ℕ) → (all && q == id) ≡ false → Keeps p (compute_and_set_quorum q)
  unfolding compute_and_set_quorum
  compute_and_set_quorum-Keeps q o =
      search (keeps_rules, write_apart, governance_config-Keeps) depth 30

  mark_defeated-Keeps : (q : ℕ) → (all && q == id) ≡ false → Keeps p (mark_defeated q)
  unfolding mark_defeated
  mark_defeated-Keeps q o = search (keeps_rules, write_apart) depth 30

  pub auto_advance-Keeps : (q block : ℕ) → (all && q == id) ≡ false → Keeps p (auto_advance q block)
  unfolding auto_advance
  auto_advance-Keeps q block o =
      search (keeps_rules, write_apart, compute_and_set_quorum-Keeps) depth 30

  add_balance-Keeps : (a b v : ℕ) → Keeps p (add_balance a b v)
  unfolding add_balance read_balance write_balance
  add_balance-Keeps a b v = search (keeps_rules, write_apart) depth 30

  deduct_balance-Keeps : (a b v : ℕ) → Keeps p (deduct_balance a b v)
  unfolding deduct_balance read_balance write_balance
  deduct_balance-Keeps a b v = search (keeps_rules, write_apart) depth 30

  refund_deposit-Keeps :
      (q a : ℕ) (e : GovError) → (all && q == id) ≡ false → Keeps p (refund_deposit q a e)
  unfolding refund_deposit
  refund_deposit-Keeps q a e o = search (keeps_rules, write_apart, add_balance-Keeps) depth 30

  require_passed-Keeps : (q : ℕ) → (all && q == id) ≡ false → Keeps p (require_passed q)
  unfolding require_passed
  require_passed-Keeps q o = search (keeps_rules, mark_defeated-Keeps) depth 40

  enqueue-Keeps : (q block : ℕ) → (all && q == id) ≡ false → Keeps p (enqueue q block)
  unfolding enqueue
  enqueue-Keeps q block o = search (keeps_rules, write_apart) depth 40

  pub queue-Keeps : (q block : ℕ) → (all && q == id) ≡ false → Keeps p (queue q block)
  unfolding queue
  queue-Keeps q block o =
      search (keeps_rules, auto_advance-Keeps, require_passed-Keeps, enqueue-Keeps) depth 40

  pub cancel_proposal-Keeps :
      (q caller : ℕ) → (all && q == id) ≡ false → Keeps p (cancel_proposal q caller)
  unfolding cancel_proposal
  cancel_proposal-Keeps q caller o =
      search (keeps_rules, write_apart, refund_deposit-Keeps) depth 40

  expire-Keeps : (q a : ℕ) → (all && q == id) ≡ false → Keeps p (expire q a)
  unfolding expire
  expire-Keeps q a o = search (keeps_rules, write_apart, refund_deposit-Keeps) depth 40

  apply_effects-Keeps : (t : ℕ) (bytes : List ℕ) → Keeps p (apply_effects t bytes)
  apply_effects-Keeps t bytes = framed-Keeps p (is_kept-is_record count all id p h) t bytes

  carry_out-Keeps : (q a : ℕ) → (all && q == id) ≡ false → Keeps p (carry_out q a)
  unfolding carry_out
  carry_out-Keeps q a o =
      search (keeps_rules, write_apart, refund_deposit-Keeps, apply_effects-Keeps) depth 40

  pub execute-Keeps : (q block : ℕ) → (all && q == id) ≡ false → Keeps p (execute q block)
  unfolding execute
  execute-Keeps q block o = search (keeps_rules, expire-Keeps, carry_out-Keeps) depth 40

  start_epoch-Keeps : (alarm : Alarm) → Keeps p (start_epoch alarm)
  unfolding start_epoch
  start_epoch-Keeps pausing = search (keeps_rules, write_apart) depth 40
  start_epoch-Keeps resuming = search (keeps_rules, write_apart) depth 40

  pub sign-Keeps : (alarm : Alarm) (caller : ℕ) → Keeps p (sign alarm caller)
  unfolding sign
  sign-Keeps pausing caller =
      search (keeps_rules, write_apart, start_epoch-Keeps, governance_config-Keeps) depth 40
  sign-Keeps resuming caller =
      search (keeps_rules, write_apart, start_epoch-Keeps, governance_config-Keeps) depth 40

  pub emergency_pause-Keeps : (reason : ℕ) → Keeps p (emergency_pause reason)
  unfolding emergency_pause
  emergency_pause-Keeps reason = search (keeps_rules, write_apart) depth 40

  pub emergency_resume-Keeps : Keeps p emergency_resume
  unfolding emergency_resume
  emergency_resume-Keeps = search (keeps_rules, write_apart) depth 40

  pub next_round-Keeps : (alarm : Alarm) → Keeps p (next_round alarm)
  next_round-Keeps pausing = search (keeps_rules, write_apart) depth 40
  next_round-Keeps resuming = search (keeps_rules, write_apart) depth 40

  write_chunks-Keeps :
      (q i : ℕ) (cs : List (List ℕ)) → (all && q == id) ≡ false → Keeps p (write_chunks q i cs)
  unfolding write_chunks
  write_chunks-Keeps q i [] o = search (keeps_rules)
  write_chunks-Keeps q i (c ∷ cs) o =
      Keeps-then (write (slot_gov_proposal_data_chunk q i) (chunk_word c)) _
        (write_apart (slot_gov_proposal_data_chunk q i) (chunk_word c) refl)
        (write_chunks-Keeps q (i + 1) cs o)

  write_content-Keeps :
      (keccak256 : List ℕ → ℕ) (q : ℕ) (title description bytes : List ℕ) (a : ℕ)
      → (all && q == id) ≡ false
      → Keeps p (write_content keccak256 q title description bytes a)
  unfolding write_content
  write_content-Keeps keccak256 q title description bytes a o =
      search (keeps_rules, write_apart, write_chunks-Keeps) depth 40

  open_ballot-Keeps :
      (q status : ℕ) → (q == id) ≡ false → (all && q == id) ≡ false → Keeps p (open_ballot q status)
  unfolding open_ballot
  open_ballot-Keeps q status o a_o = search (keeps_rules, write_apart) depth 40

  write_schedule-Keeps : (q t s e : ℕ) → (all && q == id) ≡ false → Keeps p (write_schedule q t s e)
  unfolding write_schedule
  write_schedule-Keeps q t s e o = search (keeps_rules, write_apart) depth 40

  finish_record-Keeps :
      (t a block r s e new : ℕ)
      → (new == id) ≡ false
      → (all && new == id) ≡ false
      → Keeps p (finish_record t a block r s e new)
  unfolding finish_record
  finish_record-Keeps t a block r s e new o a_o =
      search
        (
          keeps_rules, write_apart, open_ballot-Keeps, write_schedule-Keeps,
          compute_and_set_quorum-Keeps,
        )
        depth 60

  pub write_record-Keeps :
      (keccak256 : List ℕ → ℕ) (t : ℕ) (title description bytes : List ℕ) (a block r s e new : ℕ)
      → (new == id) ≡ false
      → (all && new == id) ≡ false
      → Keeps p (write_record keccak256 t title description bytes a block r s e new)
  unfolding write_record
  write_record-Keeps keccak256 t title description bytes a block r s e new o a_o =
      search (keeps_rules, write_content-Keeps, finish_record-Keeps) depth 60

  pub file_proposal-Keeps :
      (keccak256 : List ℕ → ℕ) (t : ℕ) (title description bytes : List ℕ) (a block new : ℕ)
      → (new == id) ≡ false
      → (all && new == id) ≡ false
      → count ≡ false
      → Keeps p (file_proposal keccak256 t title description bytes a block new)
  unfolding file_proposal
  file_proposal-Keeps keccak256 t title description bytes a block new o a_o c =
      search (keeps_rules, write_apart, write_record-Keeps) depth 60

  record_vote-Keeps :
      (q val voter power : ℕ) → (q == id) ≡ false → Keeps p (record_vote q val voter power)
  unfolding record_vote
  record_vote-Keeps q val voter power o = search (keeps_rules, write_apart, other_tally) depth 40
    where
      other_tally : is_kept count all id (slot_gov_proposal q (tally_suffix val)) ≡ false
      other_tally = ground arith

  require_open-Keeps : (q s e block : ℕ) → Keeps p (require_open q s e block)
  unfolding require_open
  require_open-Keeps q s e block = search (keeps_rules) depth 30

  pub vote-Keeps :
      (q val voter power block : ℕ)
      → (q == id) ≡ false
      → (all && q == id) ≡ false
      → Keeps p (vote q val voter power block)
  unfolding vote
  vote-Keeps q val voter power block o a_o =
      search (keeps_rules, require_open-Keeps, auto_advance-Keeps, record_vote-Keeps) depth 60
