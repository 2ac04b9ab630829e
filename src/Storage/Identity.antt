-- ===== src/Storage/Identity.antt =====
-- The test `slot_eq` decides equality of slots: a slot is determined by its family and arguments.
use call_node.Prelude.{ℕ, ◌≡◌, refl, sym, ◌∙◌, true, arith, ◌==◌, ==_refl, if◌then◌else◌}
use call_node.Storage.Keys.{
  proposal_of, config_of, prover_of, proposal_of-proposal_code, config_of-config_code,
  prover_of-prover_code,
}
use call_node.Storage.Slots.{
  MetaKey, meta_code, symbol, name, decimals, issuer, max_supply, supply, status, registered_at,
  evm_contract, dominance, has_erc20, compliance, Slot, slot_eq, family, first_arg, second_arg,
  third_arg, next_asset_id, slot_balance, slot_allowance, slot_asset_meta, erc20_binding_slot,
  slot_validator_count, slot_unbonding_count, slot_active_validator_count, slot_safety_floor,
  slot_unbonding_period_blocks, slot_validator_addr, slot_unbonding, slot_validator_stake,
  slot_validator_pubkey, slot_validator_status, slot_validator_unbond_height,
  slot_validator_by_addr, slot_compliance, slot_compliance_admin, slot_gov_proposal_count,
  slot_gov_proposal, slot_gov_voter, slot_gov_voter_vote, slot_gov_paused, slot_gov_pause_reason,
  slot_gov_config, slot_gov_config_initialized, slot_gov_last_submission,
  slot_gov_proposal_data_chunk, slot_emergency_pause_epoch, slot_emergency_pause_sig_epoch,
  slot_emergency_pause_sig_count, slot_emergency_resume_epoch, slot_emergency_resume_sig_epoch,
  slot_emergency_resume_sig_count, slot_fee_currency, slot_fee_currency_cap, slot_key_rotation_old,
  slot_key_rotation_new, slot_protocol_upgrade, slot_prover_key_rotation,
}

meta_of : ℕ → MetaKey
meta_of n =
    if n == 0
    then symbol
    else if n == 1
    then name
    else if n == 2
    then decimals
    else if n == 3
    then issuer
    else if n == 4
    then max_supply
    else if n == 5
    then supply
    else if n == 6
    then status
    else if n == 7
    then registered_at
    else if n == 8
    then evm_contract
    else if n == 9
    then dominance
    else if n == 10
    then has_erc20
    else compliance

meta_of-meta_code : (k : MetaKey) → meta_of (meta_code k) ≡ k
unfolding meta_of
meta_of-meta_code symbol = refl
meta_of-meta_code name = refl
meta_of-meta_code decimals = refl
meta_of-meta_code issuer = refl
meta_of-meta_code max_supply = refl
meta_of-meta_code supply = refl
meta_of-meta_code status = refl
meta_of-meta_code registered_at = refl
meta_of-meta_code evm_contract = refl
meta_of-meta_code dominance = refl
meta_of-meta_code has_erc20 = refl
meta_of-meta_code compliance = refl

-- The slot with a given family and arguments.
slot_of : ℕ → ℕ → ℕ → ℕ → Slot
unfolding meta_of proposal_of config_of prover_of
slot_of f a b c =
    if f == 0
    then next_asset_id
    else if f == 1
    then slot_balance a b
    else if f == 2
    then slot_allowance a b c
    else if f == 3
    then slot_asset_meta a (meta_of b)
    else if f == 4
    then erc20_binding_slot a
    else if f == 5
    then slot_validator_count
    else if f == 6
    then slot_unbonding_count
    else if f == 7
    then slot_active_validator_count
    else if f == 8
    then slot_safety_floor
    else if f == 9
    then slot_unbonding_period_blocks
    else if f == 10
    then slot_validator_addr a
    else if f == 11
    then slot_unbonding a
    else if f == 12
    then slot_validator_stake a
    else if f == 13
    then slot_validator_pubkey a
    else if f == 14
    then slot_validator_status a
    else if f == 15
    then slot_validator_unbond_height a
    else if f == 16
    then slot_validator_by_addr a
    else if f == 17
    then slot_compliance a
    else if f == 18
    then slot_compliance_admin
    else if f == 19
    then slot_gov_proposal_count
    else if f == 20
    then slot_gov_proposal a (proposal_of b)
    else if f == 21
    then slot_gov_voter a b
    else if f == 22
    then slot_gov_voter_vote a b
    else if f == 23
    then slot_gov_paused
    else if f == 24
    then slot_gov_pause_reason
    else if f == 25
    then slot_gov_config (config_of a)
    else if f == 26
    then slot_gov_config_initialized
    else if f == 27
    then slot_gov_last_submission a
    else if f == 28
    then slot_gov_proposal_data_chunk a b
    else if f == 29
    then slot_emergency_pause_epoch
    else if f == 30
    then slot_emergency_pause_sig_epoch a
    else if f == 31
    then slot_emergency_pause_sig_count
    else if f == 32
    then slot_emergency_resume_epoch
    else if f == 33
    then slot_emergency_resume_sig_epoch a
    else if f == 34
    then slot_emergency_resume_sig_count
    else if f == 35
    then slot_fee_currency a
    else if f == 36
    then slot_fee_currency_cap a
    else if f == 37
    then slot_key_rotation_old a
    else if f == 38
    then slot_key_rotation_new a
    else if f == 39
    then slot_protocol_upgrade
    else slot_prover_key_rotation (prover_of a)

slot_of_parts : (p : Slot) → slot_of (family p) (first_arg p) (second_arg p) (third_arg p) ≡ p
unfolding slot_of
slot_of_parts next_asset_id = refl
slot_of_parts (slot_balance a b) = refl
slot_of_parts (slot_allowance a b c) = refl
slot_of_parts (slot_asset_meta a k) = rw (meta_of-meta_code k)
slot_of_parts (erc20_binding_slot a) = refl
slot_of_parts slot_validator_count = refl
slot_of_parts slot_unbonding_count = refl
slot_of_parts slot_active_validator_count = refl
slot_of_parts slot_safety_floor = refl
slot_of_parts slot_unbonding_period_blocks = refl
slot_of_parts (slot_validator_addr a) = refl
slot_of_parts (slot_unbonding a) = refl
slot_of_parts (slot_validator_stake a) = refl
slot_of_parts (slot_validator_pubkey a) = refl
slot_of_parts (slot_validator_status a) = refl
slot_of_parts (slot_validator_unbond_height a) = refl
slot_of_parts (slot_validator_by_addr a) = refl
slot_of_parts (slot_compliance a) = refl
slot_of_parts slot_compliance_admin = refl
slot_of_parts slot_gov_proposal_count = refl
slot_of_parts (slot_gov_proposal a b) = rw (proposal_of-proposal_code b)
slot_of_parts (slot_gov_voter a b) = refl
slot_of_parts (slot_gov_voter_vote a b) = refl
slot_of_parts slot_gov_paused = refl
slot_of_parts slot_gov_pause_reason = refl
slot_of_parts (slot_gov_config a) = rw (config_of-config_code a)
slot_of_parts slot_gov_config_initialized = refl
slot_of_parts (slot_gov_last_submission a) = refl
slot_of_parts (slot_gov_proposal_data_chunk a b) = refl
slot_of_parts slot_emergency_pause_epoch = refl
slot_of_parts (slot_emergency_pause_sig_epoch a) = refl
slot_of_parts slot_emergency_pause_sig_count = refl
slot_of_parts slot_emergency_resume_epoch = refl
slot_of_parts (slot_emergency_resume_sig_epoch a) = refl
slot_of_parts slot_emergency_resume_sig_count = refl
slot_of_parts (slot_fee_currency a) = refl
slot_of_parts (slot_fee_currency_cap a) = refl
slot_of_parts (slot_key_rotation_old a) = refl
slot_of_parts (slot_key_rotation_new a) = refl
slot_of_parts slot_protocol_upgrade = refl
slot_of_parts (slot_prover_key_rotation a) = rw (prover_of-prover_code a)

slot_of_congr :
    {f f' a a' b b' c c' : ℕ}
    → f ≡ f'
    → a ≡ a'
    → b ≡ b'
    → c ≡ c'
    → slot_of f a b c ≡ slot_of f' a' b' c'
slot_of_congr p q r s i = slot_of (p i) (q i) (r i) (s i)

pub slot_eq_sound : (p q : Slot) → slot_eq p q ≡ true → p ≡ q
slot_eq_sound p q h =
    sym (slot_of_parts p)
    ∙ slot_of_congr (ground arith) (ground arith) (ground arith) (ground arith)
    ∙ slot_of_parts q

pub slot_eq_refl : (p : Slot) → slot_eq p p ≡ true
slot_eq_refl p = simp ==_refl
