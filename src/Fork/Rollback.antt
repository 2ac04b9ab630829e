-- ===== src/Fork/Rollback.antt =====
-- The emergency rollback of crates/consensus/src/fork.rs. `ed25519_verify` of crates/crypto is a
-- parameter.
use call_node.Prelude.{
  ℕ, ◌+◌, ◌%◌, ◌^◌, Bool, ◌||◌, not, List, [], ◌∷◌, ◌++◌, Option, none, some, leb, ◌==◌,
  if◌then◌else◌, length, lookup, contains_key, insert, nat_key, Result, ok, err, to_le_bytes, ascii,
}
use call_node.Fork.Types.{
  ProtocolVersion, version_beq, version_key, EmergencyRollback, EmergencyRollbackResult,
  RollbackPlan, ForkManager, ForkError,
}
use ProtocolFeature.{}
use ForkError.{
  validator_not_found, invalid_signature, duplicate_rollback_signature, rollback_target_mismatch,
  rollback_nonce_mismatch,
}
use call_node.Fork.Upgrades.{rollback_quorum}

abbrev pub rollback_domain : List ℕ
rollback_domain = ascii "CALL-EMERGENCY-ROLLBACK:"

unfoldable pub rollback_message_hash : ℕ → ℕ → ProtocolVersion → ℕ → List ℕ
rollback_message_hash _ target_height target_version nonce =
    rollback_domain
    ++ (to_le_bytes 8 target_height
        ++ (to_le_bytes 2 target_version.major
            ++ (to_le_bytes 2 target_version.minor
                ++ (to_le_bytes 2 target_version.patch ++ to_le_bytes 8 nonce))))

abbrev pub value_or_zero : Option ℕ → ℕ
value_or_zero none = 0
value_or_zero (some n) = n

-- The nonce that a validator's next signature must carry.
unfoldable pub expected_nonce : ForkManager → ℕ → ℕ
expected_nonce m validator_id = value_or_zero (lookup validator_id m.rollback_nonces)

-- `get_or_insert_with`.
abbrev pub active_or_new : ForkManager → ℕ → ProtocolVersion → EmergencyRollback
active_or_new m height v = elim m.active_rollback [
  | some r ↦ r
  | none ↦ record {
    target_height = height;
    target_version = v;
    signatures = [];
    total_validators = m.total_validators;
  }
]

-- From the insertion of the signature to the end: the count, and the result where it is a quorum.
unfoldable pub count_signature :
    ForkManager → EmergencyRollback → ℕ → ℕ → ℕ → Option EmergencyRollbackResult × ForkManager
unfolding rollback_quorum
count_signature m rollback validator_id nonce signature =
    let signed = insert validator_id signature rollback.signatures in
    let nonces = insert validator_id ((nonce + 1) % 2 ^ 64) m.rollback_nonces in
    let sig_count = length signed % 2 ^ 32 in
    if leb (rollback_quorum m.total_validators) sig_count
    then (
      some (record {
        target_height = rollback.target_height;
        target_version = rollback.target_version;
        signature_count = sig_count;
        total_validators = m.total_validators;
      }),
      record m { active_rollback = none; rollback_nonces = nonces },
    )
    else (
      none,
      record m {
        active_rollback = some (record rollback { signatures = signed });
        rollback_nonces = nonces;
      },
    )

-- From `get_or_insert_with` on.
unfoldable pub accept_signature :
    ForkManager
    → ℕ
    → ℕ
    → ProtocolVersion
    → ℕ
    → ℕ
    → Result ForkError (Option EmergencyRollbackResult) × ForkManager
unfolding count_signature
accept_signature m validator_id height v nonce signature =
    let rollback = active_or_new m height v in
    let held = record m { active_rollback = some rollback } in
    let (result, counted) = count_signature m rollback validator_id nonce signature in
    if not (rollback.target_height == height) || not (version_beq rollback.target_version v)
    then (err rollback_target_mismatch, held)
    else if contains_key validator_id rollback.signatures
    then (err duplicate_rollback_signature, held)
    else (ok result, counted)

module _ (ed25519_verify : ℕ → ℕ → List ℕ → Bool) where
  -- Whether the key verifies the signature of the message for these arguments.
  abbrev pub verifies : ℕ → ℕ → ℕ → ProtocolVersion → ℕ → ℕ → Bool
  verifies key validator_id height v nonce signature =
      ed25519_verify key signature (rollback_message_hash validator_id height v nonce)

  unfoldable pub submit_rollback_signature :
      ForkManager
      → ℕ
      → ℕ
      → ProtocolVersion
      → ℕ
      → ℕ
      → Result ForkError (Option EmergencyRollbackResult) × ForkManager
  unfolding accept_signature expected_nonce
  submit_rollback_signature m validator_id height v nonce signature =
      elim (lookup validator_id m.validator_keys) [
        | none ↦ (err (validator_not_found validator_id), m)
        | some key ↦
            let expected = expected_nonce m validator_id in
            if not (nonce == expected)
            then (err (rollback_nonce_mismatch expected nonce), m)
            else if not (verifies key validator_id height v nonce signature)
            then (err invalid_signature, m)
            else accept_signature m validator_id height v nonce signature
      ]

unfoldable pub rollback_progress : ForkManager → Option (ℕ × ℕ)
unfolding rollback_quorum
rollback_progress m = elim m.active_rollback [
  | none ↦ none
  | some r ↦ some (length r.signatures % 2 ^ 32, rollback_quorum m.total_validators)
]

unfoldable pub execute_rollback :
    ForkManager → EmergencyRollbackResult → ℕ → RollbackPlan × ForkManager
execute_rollback m r current_height = (
  record {
    target_height = r.target_height;
    target_version = r.target_version;
    signature_count = r.signature_count;
    total_validators = r.total_validators;
  },
  record m {
    current_version = r.target_version;
    rollback_history =
        m.rollback_history
        ++ record {
          target_height = r.target_height;
          target_version = r.target_version;
          signature_count = r.signature_count;
          total_validators = r.total_validators;
          executed_at_height = current_height;
        }
          ∷ [];
  },
)
