-- ===== src/Storage/Layout.antt =====
-- Where the slots lie: `storage_slot` of crates/precompile/src/storage.rs and the slot functions
-- built on it, over a hash that is a parameter (alloy's Keccak256).
use Prim.Native.String.{String}
use mathlib.Core.List.{flatten}
use mathlib.Core.Bool.{}
use call_node.Prelude.{ℕ, ◌+◌, ◌%◌, ◌^◌, List, [], ◌∷◌, ascii, to_be_bytes}
use call_node.Storage.Slots.{
  Slot, MetaKey, next_asset_id, slot_balance, slot_allowance, slot_asset_meta, erc20_binding_slot,
  slot_validator_count, slot_unbonding_count, slot_active_validator_count, slot_safety_floor,
  slot_unbonding_period_blocks, slot_validator_addr, slot_unbonding, slot_validator_stake,
  slot_validator_pubkey, slot_validator_status, slot_validator_unbond_height,
  slot_validator_by_addr, slot_compliance, slot_compliance_admin, slot_gov_proposal_count,
  slot_gov_proposal, slot_gov_voter, slot_gov_voter_vote, slot_gov_paused, slot_gov_pause_reason,
  slot_gov_config, slot_gov_config_initialized, slot_gov_last_submission,
  slot_gov_proposal_data_chunk, slot_emergency_pause_epoch, slot_emergency_pause_sig_epoch,
  slot_emergency_pause_sig_count, slot_emergency_resume_epoch, slot_emergency_resume_sig_epoch,
  slot_emergency_resume_sig_count, slot_fee_currency, slot_fee_currency_cap, slot_key_rotation_old,
  slot_key_rotation_new, slot_protocol_upgrade, slot_prover_key_rotation,
}
use call_node.Storage.Keys.{proposal_text, config_text, prover_text}
use call_node.Storage.Identity.{}

abbrev pub suffix_text : MetaKey → String
suffix_text MetaKey.symbol = "symbol"
suffix_text MetaKey.name = "name"
suffix_text MetaKey.decimals = "decimals"
suffix_text MetaKey.issuer = "issuer"
suffix_text MetaKey.max_supply = "max_supply"
suffix_text MetaKey.supply = "supply"
suffix_text MetaKey.status = "status"
suffix_text MetaKey.registered_at = "registered_at"
suffix_text MetaKey.evm_contract = "evm_contract"
suffix_text MetaKey.dominance = "dominance"
suffix_text MetaKey.has_erc20 = "has_erc20"
suffix_text MetaKey.compliance = "compliance"

-- The precompiles whose storage the slots belong to.
abbrev pub asset_address : ℕ
asset_address = 0x201

abbrev pub validator_address : ℕ
validator_address = 0x204

abbrev pub compliance_address : ℕ
compliance_address = 0x205

abbrev governance_address : ℕ
governance_address = 0x203

-- A u64 as 8 bytes.
abbrev pub id_bytes : ℕ → List ℕ
id_bytes = to_be_bytes 8

abbrev pub address_bytes : ℕ → List ℕ
address_bytes = to_be_bytes 20

module _ (keccak256 : List ℕ → ℕ) where
  unfoldable pub storage_slot : List (List ℕ) → ℕ
  storage_slot parts = keccak256 (flatten parts)

  -- The contract and the slot word of each slot.
  unfoldable pub location : Slot → ℕ × ℕ
  unfolding storage_slot
  location next_asset_id = (asset_address, 0)
  location (slot_balance id a) = (asset_address, storage_slot (id_bytes id ∷ address_bytes a ∷ []))
  location (slot_allowance id o s) =
      (asset_address, storage_slot (id_bytes id ∷ address_bytes o ∷ address_bytes s ∷ []))
  location (slot_asset_meta id k) =
      (asset_address, storage_slot (id_bytes id ∷ ascii (suffix_text k) ∷ []))
  location (erc20_binding_slot c) =
      (asset_address, storage_slot (ascii "call:asset:erc20_binding" ∷ address_bytes c ∷ []))
  location slot_validator_count = (validator_address, 0)
  location slot_unbonding_count = (validator_address, 1)
  location slot_active_validator_count = (validator_address, 2)
  location slot_safety_floor = (validator_address, 3)
  location slot_unbonding_period_blocks = (validator_address, 4)
  location (slot_validator_addr i) =
      (validator_address, (storage_slot (ascii "validators" ∷ []) + i) % 2 ^ 256)
  location (slot_unbonding i) =
      (validator_address, (storage_slot (ascii "unbonding" ∷ []) + i) % 2 ^ 256)
  location (slot_validator_stake a) =
      (validator_address, storage_slot (address_bytes a ∷ ascii "stake" ∷ []))
  location (slot_validator_pubkey a) =
      (validator_address, storage_slot (address_bytes a ∷ ascii "pubkey" ∷ []))
  location (slot_validator_status a) =
      (validator_address, storage_slot (address_bytes a ∷ ascii "status" ∷ []))
  location (slot_validator_unbond_height a) =
      (validator_address, storage_slot (address_bytes a ∷ ascii "unbond_at" ∷ []))
  location (slot_validator_by_addr a) =
      (validator_address, storage_slot (address_bytes a ∷ ascii "validator_id" ∷ []))
  location (slot_compliance a) = (compliance_address, storage_slot (address_bytes a ∷ []))
  location slot_compliance_admin = (compliance_address, storage_slot (ascii "admin" ∷ []))
  location slot_gov_proposal_count = (governance_address, 0)
  location (slot_gov_proposal a b) = (
    governance_address,
    storage_slot (ascii "proposal" ∷ id_bytes a ∷ ascii (proposal_text b) ∷ []),
  )
  location (slot_gov_voter a b) =
      (governance_address, storage_slot (ascii "vote" ∷ id_bytes a ∷ address_bytes b ∷ []))
  location (slot_gov_voter_vote a b) =
      (governance_address, storage_slot (ascii "vote_choice" ∷ id_bytes a ∷ address_bytes b ∷ []))
  location slot_gov_paused = (governance_address, storage_slot (ascii "paused" ∷ []))
  location slot_gov_pause_reason = (governance_address, storage_slot (ascii "pause_reason" ∷ []))
  location (slot_gov_config a) =
      (governance_address, storage_slot (ascii "gov_config" ∷ ascii (config_text a) ∷ []))
  location slot_gov_config_initialized =
      (governance_address, storage_slot (ascii "gov_config_initialized" ∷ []))
  location (slot_gov_last_submission a) =
      (governance_address, storage_slot (ascii "last_submit" ∷ address_bytes a ∷ []))
  location (slot_gov_proposal_data_chunk a b) = (
    governance_address,
    storage_slot (ascii "proposal" ∷ id_bytes a ∷ ascii "data_chunk" ∷ id_bytes b ∷ []),
  )
  location slot_emergency_pause_epoch =
      (governance_address, storage_slot (ascii "emergency_pause_epoch" ∷ []))
  location (slot_emergency_pause_sig_epoch a) =
      (governance_address, storage_slot (ascii "emergency_pause_sig" ∷ address_bytes a ∷ []))
  location slot_emergency_pause_sig_count =
      (governance_address, storage_slot (ascii "emergency_pause_sig_count" ∷ []))
  location slot_emergency_resume_epoch =
      (governance_address, storage_slot (ascii "emergency_resume_epoch" ∷ []))
  location (slot_emergency_resume_sig_epoch a) =
      (governance_address, storage_slot (ascii "emergency_resume_sig" ∷ address_bytes a ∷ []))
  location slot_emergency_resume_sig_count =
      (governance_address, storage_slot (ascii "emergency_resume_sig_count" ∷ []))
  location (slot_fee_currency a) =
      (governance_address, storage_slot (ascii "fee_currency" ∷ id_bytes a ∷ []))
  location (slot_fee_currency_cap a) =
      (governance_address, storage_slot (ascii "fee_currency_cap" ∷ id_bytes a ∷ []))
  location (slot_key_rotation_old a) =
      (governance_address, storage_slot (ascii "key_rotation" ∷ id_bytes a ∷ ascii "old" ∷ []))
  location (slot_key_rotation_new a) =
      (governance_address, storage_slot (ascii "key_rotation" ∷ id_bytes a ∷ ascii "new" ∷ []))
  location slot_protocol_upgrade =
      (governance_address, storage_slot (ascii "protocol_upgrade" ∷ []))
  location (slot_prover_key_rotation a) =
      (governance_address, storage_slot (ascii "prover_key_rotation" ∷ ascii (prover_text a) ∷ []))
