-- ===== src/Fork/Types.antt =====
-- The types of crates/consensus/src/fork.rs and `ProtocolVersion` of crates/primitives/src/lib.rs.
-- A key and a signature are the numbers that their bytes spell.
use call_node.Prelude.{ℕ, ◌≡◌, Bool, true, ◌&&◌, List, Option, arith, ◌==◌, ◌↔◌, Key, Dict}

pub record ProtocolVersion : Type 0 where
  pub major : ℕ
  pub minor : ℕ
  pub patch : ℕ

abbrev pub version_beq : ProtocolVersion → ProtocolVersion → Bool
version_beq v w = v.major == w.major && (v.minor == w.minor && v.patch == w.patch)

pub version_beq_iff : (v w : ProtocolVersion) → (version_beq v w ≡ true) ↔ (v ≡ w)
version_beq_iff v w = ground arith

instance abbrev pub version_key : Key ProtocolVersion
version_key = record { beq = version_beq; beq_iff = version_beq_iff }

pub data ProtocolFeature : Type 0 where
  shielded_pool agent_precompiles bridge_operations smart_accounts : ProtocolFeature
  compliance_engine oracle_integration bls_aggregate_signatures : ProtocolFeature
  on_chain_governance gas_sponsorship : ProtocolFeature

pub record UpgradeEntry : Type 0 where
  pub version : ProtocolVersion
  pub activation_height : ℕ
  pub applied : Bool
  pub proposal_id : Option ℕ
  pub approved_at_height : Option ℕ

pub record EmergencyRollback : Type 0 where
  pub target_height : ℕ
  pub target_version : ProtocolVersion
  pub signatures : Dict ℕ ℕ
  pub total_validators : ℕ

pub record RollbackRecord : Type 0 where
  pub target_height : ℕ
  pub target_version : ProtocolVersion
  pub signature_count : ℕ
  pub total_validators : ℕ
  pub executed_at_height : ℕ

pub record EmergencyRollbackResult : Type 0 where
  pub target_height : ℕ
  pub target_version : ProtocolVersion
  pub signature_count : ℕ
  pub total_validators : ℕ

pub record RollbackPlan : Type 0 where
  pub target_height : ℕ
  pub target_version : ProtocolVersion
  pub signature_count : ℕ
  pub total_validators : ℕ

pub record ForkManager : Type 0 where
  pub current_version : ProtocolVersion
  pub scheduled_upgrades : List UpgradeEntry
  pub active_rollback : Option EmergencyRollback
  pub total_validators : ℕ
  pub validator_keys : Dict ℕ ℕ
  pub timelock_blocks : ℕ
  pub rollback_nonces : Dict ℕ ℕ
  pub rollback_history : List RollbackRecord
  pub validator_readiness : Dict ProtocolVersion (List ℕ)
  pub require_validator_readiness : Bool

pub data ForkError : Type 0 where
  validator_not_found : ℕ → ForkError
  invalid_signature : ForkError
  version_mismatch : (block_height : ℕ) (expected actual : ProtocolVersion) → ForkError
  timelock_violation : ℕ → ℕ → ForkError
  duplicate_rollback_signature rollback_target_mismatch no_active_rollback : ForkError
  rollback_nonce_mismatch : (expected got : ℕ) → ForkError
  upgrade_not_scheduled : ProtocolVersion → ForkError
