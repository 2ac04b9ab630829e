-- ===== src/Governance/Effects.antt =====
-- crates/governance/src/precompile.rs: what the execution of a proposal does, by its type. The data
-- is that of the ABI encoding, read at fixed places.
use call_node.Prelude.{
  ℕ, ◌-◌, not, List, [], ◌∷◌, ltb, ◌==◌, if◌then◌else◌, length, u64_max, saturating_add,
  from_be_bytes, is_utf8,
}
use call_node.Storage.{
  return, throw, throw_if, throw_found, ok_or, map_err, read, write, ◌>>=◌, ◌>>◌, ConfigKey,
  ProverKey, slot_gov_paused, slot_fee_currency, slot_fee_currency_cap, slot_key_rotation_old,
  slot_key_rotation_new, slot_protocol_upgrade, slot_prover_key_rotation, slot_validator_stake,
  slot_validator_status, slot_compliance, u256_to_u64, u256_to_u128, u128_to_u256,
}
use call_node.Asset.Store.{add_balance, deduct_balance}
use call_node.Governance.Types.{
  call_asset_id, treasury_address, malformed_execution_data, key_not_utf8, disallowed_parameter_key,
  recipient_zero, amount_zero, treasury_insufficient, treasury_credit_failed, old_pubkey_zero,
  new_pubkey_zero, invalid_compliance_status, sunset_zero, unsupported_proposal_type,
}
use call_node.Governance.Config.{find_key, validate_config_param}
use call_node.Governance.Reads.{Act}
use call_node.Governance.Submission.{slice, write_config_u128}

-- The big-endian number in the bytes `lo .. hi`.
unfoldable pub number_at : ℕ → ℕ → List ℕ → ℕ
number_at lo hi execution_data = from_be_bytes (slice lo hi execution_data)

abbrev pub require_len : ℕ → ℕ → List ℕ → Act (Unit {0})
require_len proposal_type least execution_data =
    throw_if (ltb (length execution_data) least) (malformed_execution_data proposal_type)

abbrev pub allowed_governance_params : List ConfigKey
allowed_governance_params =
    ConfigKey.review_period ∷ ConfigKey.voting_period ∷ ConfigKey.timelock
    ∷ ConfigKey.execution_timeout ∷ ConfigKey.proposal_cooldown ∷ ConfigKey.validator_quorum_bps
    ∷ ConfigKey.supply_quorum_bps ∷ ConfigKey.treasury_quorum_bps ∷ ConfigKey.simple_majority_bps
    ∷ ConfigKey.emergency_pause_bps ∷ []

-- The value is written where the key is allowed and the value within its bounds.
unfoldable pub set_parameter : List ℕ → ℕ → Act (Unit {0})
unfolding find_key validate_config_param
set_parameter key new_value = do
  param ← ok_or (find_key key allowed_governance_params) disallowed_parameter_key
  throw_found (validate_config_param key new_value)
  write_config_u128 param new_value

unfoldable pub parameter_change : List ℕ → Act (Unit {0})
unfolding number_at set_parameter
parameter_change execution_data = do
  require_len 0 128 execution_data
  let string_offset = u256_to_u64 (number_at 0 32 execution_data)
  let string_end = saturating_add u64_max string_offset 32
  require_len 0 string_end execution_data
  let string_len = u256_to_u64 (number_at string_offset string_end execution_data)
  let data_end = saturating_add u64_max string_end string_len
  require_len 0 data_end execution_data
  let key = slice string_end data_end execution_data
  throw_if (not (is_utf8 key)) key_not_utf8
  set_parameter key (number_at 48 64 execution_data)

unfoldable pub treasury_spend : List ℕ → Act (Unit {0})
unfolding number_at add_balance deduct_balance
treasury_spend execution_data = do
  require_len 2 64 execution_data
  let recipient = number_at 12 32 execution_data
  throw_if (recipient == 0) recipient_zero
  let amount = number_at 48 64 execution_data
  throw_if (amount == 0) amount_zero
  let asset_id =
      if ltb (length execution_data) 96 then call_asset_id else number_at 88 96 execution_data
  map_err (deduct_balance asset_id treasury_address amount) treasury_insufficient
  map_err (add_balance asset_id recipient amount) treasury_credit_failed

unfoldable pub key_rotation : List ℕ → Act (Unit {0})
key_rotation execution_data = do
  require_len 9 96 execution_data
  let validator_id = number_at 24 32 execution_data
  let old_pubkey = number_at 32 64 execution_data
  throw_if (old_pubkey == 0) old_pubkey_zero
  let new_pubkey = number_at 64 96 execution_data
  throw_if (new_pubkey == 0) new_pubkey_zero
  write (slot_key_rotation_old validator_id) old_pubkey
  write (slot_key_rotation_new validator_id) new_pubkey

unfoldable pub validator_slash : List ℕ → Act (Unit {0})
validator_slash execution_data = do
  require_len 3 64 execution_data
  let validator = number_at 12 32 execution_data
  let amount = number_at 48 64 execution_data
  stake_raw ← read (slot_validator_stake validator)
  let new_stake = u256_to_u128 stake_raw - amount
  write (slot_validator_stake validator) (u128_to_u256 new_stake)
  (if new_stake == 0 then write (slot_validator_status validator) 0 else return tt)

unfoldable pub compliance_update : List ℕ → Act (Unit {0})
compliance_update execution_data = do
  require_len 4 64 execution_data
  let target = number_at 12 32 execution_data
  let status = number_at 63 64 execution_data
  throw_if (ltb 1 status) invalid_compliance_status
  write (slot_compliance target) status

unfoldable pub prover_rotation : List ℕ → Act (Unit {0})
prover_rotation execution_data = do
  require_len 10 160 execution_data
  let sunset_timestamp = number_at 152 160 execution_data
  throw_if (sunset_timestamp == 0) sunset_zero
  write (slot_prover_key_rotation ProverKey.version) (number_at 28 32 execution_data)
  write (slot_prover_key_rotation ProverKey.transfer_vk_hash) (number_at 32 64 execution_data)
  write (slot_prover_key_rotation ProverKey.deposit_vk_hash) (number_at 64 96 execution_data)
  write (slot_prover_key_rotation ProverKey.withdraw_vk_hash) (number_at 96 128 execution_data)
  write (slot_prover_key_rotation ProverKey.sunset_timestamp) sunset_timestamp
  write (slot_prover_key_rotation ProverKey.pending) 1

unfoldable pub apply_effects : ℕ → List ℕ → Act (Unit {0})
apply_effects proposal_type execution_data =
    if proposal_type == 0
    then parameter_change execution_data
    else if proposal_type == 2
    then treasury_spend execution_data
    else if proposal_type == 5
    then write slot_gov_paused 1
    else if proposal_type == 6
    then (require_len 6 32 execution_data
        >> write (slot_fee_currency (number_at 24 32 execution_data)) 1)
    else if proposal_type == 7
    then (require_len 7 32 execution_data
        >> write (slot_fee_currency (number_at 24 32 execution_data)) 0)
    else if proposal_type == 9
    then key_rotation execution_data
    else if proposal_type == 1
    then (require_len 1 32 execution_data
        >> write slot_protocol_upgrade (number_at 0 32 execution_data))
    else if proposal_type == 3
    then validator_slash execution_data
    else if proposal_type == 4
    then compliance_update execution_data
    else if proposal_type == 8
    then (require_len 8 64 execution_data
        >> write (slot_fee_currency_cap (number_at 24 32 execution_data))
            (number_at 48 64 execution_data))
    else if proposal_type == 10
    then prover_rotation execution_data
    else throw unsupported_proposal_type
