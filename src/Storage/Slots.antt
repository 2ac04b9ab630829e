-- ===== src/Storage/Slots.antt =====
-- The storage locations by the functions that compute them (`Layout` gives their addresses),
-- and the backend's `load` and `store`.
use call_node.Prelude.{ℕ, Bool, ◌&&◌, ◌==◌, if◌then◌else◌}
use call_node.Storage.Keys.{
  ProposalKey, ConfigKey, ProverKey, proposal_code, config_code, prover_code,
}

-- The suffixes of an asset's metadata slots.
pub data MetaKey : Type 0 where
  symbol name decimals issuer max_supply supply status registered_at evm_contract : MetaKey
  dominance has_erc20 compliance : MetaKey

abbrev pub meta_code : MetaKey → ℕ
meta_code symbol = 0
meta_code name = 1
meta_code decimals = 2
meta_code issuer = 3
meta_code max_supply = 4
meta_code supply = 5
meta_code status = 6
meta_code registered_at = 7
meta_code evm_contract = 8
meta_code dominance = 9
meta_code has_erc20 = 10
meta_code compliance = 11

pub data Slot : Type 0 where
  -- under ASSET_ADDRESS
  next_asset_id : Slot
  slot_balance : (asset_id addr : ℕ) → Slot
  slot_allowance : (asset_id owner spender : ℕ) → Slot
  slot_asset_meta : (asset_id : ℕ) (suffix : MetaKey) → Slot
  erc20_binding_slot : (evm_contract : ℕ) → Slot
  -- under VALIDATOR_ADDRESS
  slot_validator_count slot_unbonding_count slot_active_validator_count : Slot
  slot_safety_floor slot_unbonding_period_blocks : Slot
  slot_validator_addr slot_unbonding : (index : ℕ) → Slot
  slot_validator_stake slot_validator_pubkey slot_validator_status : (addr : ℕ) → Slot
  slot_validator_unbond_height slot_validator_by_addr : (addr : ℕ) → Slot
  -- under COMPLIANCE_ADDRESS
  slot_compliance : (addr : ℕ) → Slot
  slot_compliance_admin : Slot
  -- under GOVERNANCE_ADDRESS
  slot_gov_proposal_count : Slot
  slot_gov_proposal : (proposal_id : ℕ) (suffix : ProposalKey) → Slot
  slot_gov_voter : (proposal_id : ℕ) (voter : ℕ) → Slot
  slot_gov_voter_vote : (proposal_id : ℕ) (voter : ℕ) → Slot
  slot_gov_paused : Slot
  slot_gov_pause_reason : Slot
  slot_gov_config : (suffix : ConfigKey) → Slot
  slot_gov_config_initialized : Slot
  slot_gov_last_submission : (addr : ℕ) → Slot
  slot_gov_proposal_data_chunk : (proposal_id : ℕ) (chunk_idx : ℕ) → Slot
  slot_emergency_pause_epoch : Slot
  slot_emergency_pause_sig_epoch : (addr : ℕ) → Slot
  slot_emergency_pause_sig_count : Slot
  slot_emergency_resume_epoch : Slot
  slot_emergency_resume_sig_epoch : (addr : ℕ) → Slot
  slot_emergency_resume_sig_count : Slot
  slot_fee_currency : (asset_id : ℕ) → Slot
  slot_fee_currency_cap : (asset_id : ℕ) → Slot
  slot_key_rotation_old : (validator_id : ℕ) → Slot
  slot_key_rotation_new : (validator_id : ℕ) → Slot
  slot_protocol_upgrade : Slot
  slot_prover_key_rotation : (suffix : ProverKey) → Slot

-- Which function computes a slot, and its arguments: equality of slots goes through these.
abbrev pub family : Slot → ℕ
family next_asset_id = 0
family (slot_balance _ _) = 1
family (slot_allowance _ _ _) = 2
family (slot_asset_meta _ _) = 3
family (erc20_binding_slot _) = 4
family slot_validator_count = 5
family slot_unbonding_count = 6
family slot_active_validator_count = 7
family slot_safety_floor = 8
family slot_unbonding_period_blocks = 9
family (slot_validator_addr _) = 10
family (slot_unbonding _) = 11
family (slot_validator_stake _) = 12
family (slot_validator_pubkey _) = 13
family (slot_validator_status _) = 14
family (slot_validator_unbond_height _) = 15
family (slot_validator_by_addr _) = 16
family (slot_compliance _) = 17
family slot_compliance_admin = 18
family slot_gov_proposal_count = 19
family (slot_gov_proposal a b) = 20
family (slot_gov_voter a b) = 21
family (slot_gov_voter_vote a b) = 22
family slot_gov_paused = 23
family slot_gov_pause_reason = 24
family (slot_gov_config a) = 25
family slot_gov_config_initialized = 26
family (slot_gov_last_submission a) = 27
family (slot_gov_proposal_data_chunk a b) = 28
family slot_emergency_pause_epoch = 29
family (slot_emergency_pause_sig_epoch a) = 30
family slot_emergency_pause_sig_count = 31
family slot_emergency_resume_epoch = 32
family (slot_emergency_resume_sig_epoch a) = 33
family slot_emergency_resume_sig_count = 34
family (slot_fee_currency a) = 35
family (slot_fee_currency_cap a) = 36
family (slot_key_rotation_old a) = 37
family (slot_key_rotation_new a) = 38
family slot_protocol_upgrade = 39
family (slot_prover_key_rotation a) = 40

abbrev pub first_arg : Slot → ℕ
first_arg next_asset_id = 0
first_arg (slot_balance a _) = a
first_arg (slot_allowance a _ _) = a
first_arg (slot_asset_meta a _) = a
first_arg (erc20_binding_slot c) = c
first_arg slot_validator_count = 0
first_arg slot_unbonding_count = 0
first_arg slot_active_validator_count = 0
first_arg slot_safety_floor = 0
first_arg slot_unbonding_period_blocks = 0
first_arg (slot_validator_addr i) = i
first_arg (slot_unbonding i) = i
first_arg (slot_validator_stake a) = a
first_arg (slot_validator_pubkey a) = a
first_arg (slot_validator_status a) = a
first_arg (slot_validator_unbond_height a) = a
first_arg (slot_validator_by_addr a) = a
first_arg (slot_compliance a) = a
first_arg slot_compliance_admin = 0
first_arg slot_gov_proposal_count = 0
first_arg (slot_gov_proposal a b) = a
first_arg (slot_gov_voter a b) = a
first_arg (slot_gov_voter_vote a b) = a
first_arg slot_gov_paused = 0
first_arg slot_gov_pause_reason = 0
first_arg (slot_gov_config a) = config_code a
first_arg slot_gov_config_initialized = 0
first_arg (slot_gov_last_submission a) = a
first_arg (slot_gov_proposal_data_chunk a b) = a
first_arg slot_emergency_pause_epoch = 0
first_arg (slot_emergency_pause_sig_epoch a) = a
first_arg slot_emergency_pause_sig_count = 0
first_arg slot_emergency_resume_epoch = 0
first_arg (slot_emergency_resume_sig_epoch a) = a
first_arg slot_emergency_resume_sig_count = 0
first_arg (slot_fee_currency a) = a
first_arg (slot_fee_currency_cap a) = a
first_arg (slot_key_rotation_old a) = a
first_arg (slot_key_rotation_new a) = a
first_arg slot_protocol_upgrade = 0
first_arg (slot_prover_key_rotation a) = prover_code a

abbrev pub second_arg : Slot → ℕ
second_arg (slot_balance _ a) = a
second_arg (slot_allowance _ o _) = o
second_arg (slot_asset_meta _ k) = meta_code k
second_arg (slot_gov_proposal a b) = proposal_code b
second_arg (slot_gov_voter a b) = b
second_arg (slot_gov_voter_vote a b) = b
second_arg (slot_gov_proposal_data_chunk a b) = b
second_arg _ = 0

abbrev pub third_arg : Slot → ℕ
third_arg (slot_allowance _ _ s) = s
third_arg _ = 0

abbrev pub slot_eq : Slot → Slot → Bool
slot_eq p q =
    family p == family q
    && (first_arg p == first_arg q && (second_arg p == second_arg q && third_arg p == third_arg q))

abbrev pub Storage : Type 0
Storage = Slot → ℕ

-- `StorageBackend::load` and `StorageBackend::store`.
abbrev pub load : Slot → Storage → ℕ
load p st = st p

abbrev pub store : Slot → ℕ → Storage → Storage
store p v st q = if slot_eq q p then v else st q

-- A backend in which nothing has been written.
abbrev pub empty_storage : Storage
empty_storage _ = 0
