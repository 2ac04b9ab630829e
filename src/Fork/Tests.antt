-- ===== src/Fork/Tests.antt =====
-- Upgrades and a rollback over three validators, with a check that a signature equals the key.
use call_node.Prelude.{
  [], ◌∷◌, ℕ, ◌≡◌, ◌↔◌, refl, Bool, true, false, List, none, some, arith, ◌==◌, ok, err,
}
use mathlib.Core.List.{}
use call_node.Fork.Types.{ProtocolVersion, UpgradeEntry, ForkManager, ForkError}
use ForkError.{rollback_nonce_mismatch, version_mismatch}
use call_node.Fork.Upgrades.{
  new, register_validator, schedule_upgrade, check_upgrades_at_height, validate_block_version,
  sort_by_height,
}
use call_node.Fork.Rollback.{submit_rollback_signature, rollback_message_hash, execute_rollback}
use call_node.Fork.Scheduling.{}
use call_node.Fork.Versions.{Reached, validate_block_version_iff}
use call_node.Fork.Messages.{rollback_message_hash_injective}
use call_node.Fork.Quorum.{OkIsQuorate}
use call_node.Fork.Collection.{Collecting, submit_rollback_signature-IsQuorate}
use call_node.Fork.Replay.{submit_rollback_signature_replayed}

abbrev genesis_version : ProtocolVersion
genesis_version = record { major = 1; minor = 0; patch = 0 }

abbrev next_version : ProtocolVersion
next_version = record { major = 1; minor = 1; patch = 0 }

abbrev entry : UpgradeEntry
entry = record {
  version = next_version;
  activation_height = 50;
  applied = false;
  proposal_id = none;
  approved_at_height = none;
}

abbrev early : UpgradeEntry
early = record entry { version = genesis_version; activation_height = 20 }

abbrev target : ℕ
target = 40

abbrev nonce : ℕ
nonce = 7

abbrev equal_key : ℕ → ℕ → List ℕ → Bool
equal_key key signature message = key == signature

abbrev registered : ForkManager
registered =
    register_validator (register_validator (register_validator (new genesis_version 3) 1 11) 2 22) 3
      33

abbrev signed_once : ForkManager
signed_once = (submit_rollback_signature equal_key registered 1 40 genesis_version 0 11).1

abbrev upgraded : ForkManager
upgraded = (check_upgrades_at_height (schedule_upgrade (new genesis_version 3) entry) 60).1

validate_block_version_iff_example :
    (validate_block_version upgraded 60 next_version ≡ ok tt)
    ↔ (next_version ≡ upgraded.current_version)
validate_block_version_iff_example = validate_block_version_iff upgraded 60 next_version (
    Reached.check 60 (omega arith)
      (Reached.schedule entry (refl, omega arith) (Reached.start genesis_version 3)))

rollback_message_hash_injective_example :
    (target ≡ target) × ((genesis_version ≡ genesis_version) × (nonce ≡ nonce))
unfolding rollback_message_hash
rollback_message_hash_injective_example =
    rollback_message_hash_injective 1 2 target target genesis_version genesis_version nonce nonce
      (omega arith) (omega arith) (omega arith, (omega arith, omega arith))
      (omega arith, (omega arith, omega arith)) (omega arith) (omega arith) refl

abbrev registrations : List (ℕ × ℕ)
registrations = (3, 33) ∷ (2, 22) ∷ (1, 11) ∷ []

submit_rollback_signature-IsQuorate_example :
    OkIsQuorate equal_key registrations signed_once
      (submit_rollback_signature equal_key signed_once 2 40 genesis_version 0 22).0
submit_rollback_signature-IsQuorate_example =
    submit_rollback_signature-IsQuorate equal_key registrations signed_once 2 40 genesis_version 0
      22
      (Collecting.submit 1 40 genesis_version 0 11 (
        Collecting.register 3 33 (
          Collecting.register 2 22
            (Collecting.register 1 11 (Collecting.start genesis_version 3)))))

-- The second of three signatures is a quorum.
second_signature_is_a_quorum :
    (submit_rollback_signature equal_key signed_once 2 40 genesis_version 0 22).0
    ≡ ok (
        some (record {
          target_height = 40;
          target_version = genesis_version;
          signature_count = 2;
          total_validators = 3;
        }))
unfolding submit_rollback_signature register_validator new
second_signature_is_a_quorum = refl

submit_rollback_signature_replayed_example :
    submit_rollback_signature equal_key signed_once 1 99 next_version 0 11
    ≡ (err (rollback_nonce_mismatch 1 0), signed_once)
unfolding submit_rollback_signature register_validator new
submit_rollback_signature_replayed_example =
    submit_rollback_signature_replayed equal_key registered 1 40 99 genesis_version next_version 0
      11 11 none (omega arith) refl

-- The version that a height is reached with.
upgraded_at_fifty : upgraded.current_version ≡ next_version
unfolding check_upgrades_at_height schedule_upgrade new sort_by_height
upgraded_at_fifty = refl

-- An upgrade that is skipped for lack of readiness leaves the version, and its height still wants
-- the new one.
abbrev unready : ForkManager
unready =
    (check_upgrades_at_height
      (record (schedule_upgrade (new genesis_version 3) entry) {
        require_validator_readiness = true;
      })
      60).1

skipped_upgrade_is_wanted :
    (unready.current_version ≡ genesis_version)
    × (validate_block_version unready 60 genesis_version
        ≡ err (version_mismatch 60 next_version genesis_version))
unfolding check_upgrades_at_height schedule_upgrade new sort_by_height validate_block_version
skipped_upgrade_is_wanted = (refl, refl)

-- After a rollback below an applied upgrade, its height brings no upgrade and still wants it.
abbrev rolled_back : ForkManager
rolled_back =
    (check_upgrades_at_height
      (execute_rollback upgraded
        (record {
          target_height = 40;
          target_version = genesis_version;
          signature_count = 2;
          total_validators = 3;
        })
        60).1
      55).1

rolled_back_upgrade_is_wanted :
    (rolled_back.current_version ≡ genesis_version)
    × (validate_block_version rolled_back 55 genesis_version
        ≡ err (version_mismatch 55 next_version genesis_version))
unfolding check_upgrades_at_height schedule_upgrade new sort_by_height validate_block_version
    execute_rollback
rolled_back_upgrade_is_wanted = (refl, refl)
