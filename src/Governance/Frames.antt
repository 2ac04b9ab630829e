-- ===== src/Governance/Frames.antt =====
-- What the execution of a proposal leaves alone: the records of the proposals and of the votes.
use call_node.Prelude.{false, refl, ℕ, Bool, true, ◌≡◌, List}
use call_node.Asset.Store.{read_balance, write_balance, add_balance, deduct_balance}
use call_node.Governance.Submission.{ensure_config_initialized, check_submission, open_submission}
use call_node.Governance.Types.{disallowed_parameter_key}
use call_node.Governance.Config.{find_key, validate_config_param}
use call_node.Storage.{
  Keeps-bind, Keeps-then, Keeps-ok_or, Keeps-throw_found, ok_or, throw_found, slot_gov_config,
  Keeps, Keeps-write, keeps_rules, write, Slot, slot_gov_proposal_count, slot_gov_voter_vote,
  slot_gov_voter, slot_gov_proposal,
}
use call_node.Governance.Effects.{
  set_parameter, parameter_change, treasury_spend, key_rotation, validator_slash, compliance_update,
  prover_rotation, apply_effects, allowed_governance_params,
}

-- The count of the proposals, their records and their votes.
abbrev pub is_record : Slot → Bool
is_record slot_gov_proposal_count = true
is_record (slot_gov_proposal _ _) = true
is_record (slot_gov_voter _ _) = true
is_record (slot_gov_voter_vote _ _) = true
is_record _ = false

module _ (p : Slot) (h : is_record p ≡ true) where
  write_outside :
      {E : Type 0} (q : Slot) (v : ℕ) → is_record q ≡ false → Keeps {E = E} p (write q v)
  write_outside q v o = Keeps-write is_record q v h o

  add_balance-Keeps : (id a v : ℕ) → Keeps p (add_balance id a v)
  unfolding add_balance read_balance write_balance
  add_balance-Keeps id a v = search (keeps_rules, write_outside) depth 30

  deduct_balance-Keeps : (id a v : ℕ) → Keeps p (deduct_balance id a v)
  unfolding deduct_balance read_balance write_balance
  deduct_balance-Keeps id a v = search (keeps_rules, write_outside) depth 30

  treasury_spend-Keeps : (bytes : List ℕ) → Keeps p (treasury_spend bytes)
  unfolding treasury_spend
  treasury_spend-Keeps bytes =
      search (keeps_rules, add_balance-Keeps, deduct_balance-Keeps) depth 30

  key_rotation-Keeps : (bytes : List ℕ) → Keeps p (key_rotation bytes)
  unfolding key_rotation
  key_rotation-Keeps bytes = search (keeps_rules, write_outside) depth 30

  validator_slash-Keeps : (bytes : List ℕ) → Keeps p (validator_slash bytes)
  unfolding validator_slash
  validator_slash-Keeps bytes = search (keeps_rules, write_outside) depth 30

  compliance_update-Keeps : (bytes : List ℕ) → Keeps p (compliance_update bytes)
  unfolding compliance_update
  compliance_update-Keeps bytes = search (keeps_rules, write_outside) depth 30

  prover_rotation-Keeps : (bytes : List ℕ) → Keeps p (prover_rotation bytes)
  unfolding prover_rotation
  prover_rotation-Keeps bytes = search (keeps_rules, write_outside) depth 30

  set_parameter-Keeps : (key : List ℕ) (value : ℕ) → Keeps p (set_parameter key value)
  unfolding set_parameter
  set_parameter-Keeps key value =
      Keeps-bind (ok_or (find_key key allowed_governance_params) disallowed_parameter_key) _
        (Keeps-ok_or _ _)
        (λ param.
          Keeps-then (throw_found (validate_config_param key value)) _ (Keeps-throw_found _)
            (write_outside (slot_gov_config param) value refl))

  parameter_change-Keeps : (bytes : List ℕ) → Keeps p (parameter_change bytes)
  unfolding parameter_change
  parameter_change-Keeps bytes = search (keeps_rules, set_parameter-Keeps) depth 30

  pub apply_effects-Keeps :
      (proposal_type : ℕ) (bytes : List ℕ) → Keeps p (apply_effects proposal_type bytes)
  unfolding apply_effects
  apply_effects-Keeps proposal_type bytes =
      search
        (
          keeps_rules, write_outside, treasury_spend-Keeps, key_rotation-Keeps,
          validator_slash-Keeps, compliance_update-Keeps, prover_rotation-Keeps,
          parameter_change-Keeps,
        )
        depth 30

  ensure_config_initialized-Keeps : Keeps p ensure_config_initialized
  unfolding ensure_config_initialized
  ensure_config_initialized-Keeps = search (keeps_rules, write_outside) depth 30

  -- What comes before a submission is stored writes no record either.
  pub open_submission-Keeps :
      (t : ℕ) (bytes : List ℕ) (a block : ℕ) → Keeps p (open_submission t bytes a block)
  unfolding open_submission check_submission
  open_submission-Keeps t bytes a block =
      search (keeps_rules, ensure_config_initialized-Keeps, deduct_balance-Keeps) depth 40
