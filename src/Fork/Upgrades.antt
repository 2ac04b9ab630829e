-- ===== src/Fork/Upgrades.antt =====
-- The manager, the feature gates and the scheduled upgrades of crates/consensus/src/fork.rs.
-- An operation that changes the manager returns it beside its result; sums wrap at their width.
use call_node.Prelude.{
  ℕ, ◌+◌, ◌*◌, ◌/◌, ◌%◌, ◌^◌, max, Bool, true, false, ◌&&◌, ◌||◌, not, List, [], ◌∷◌, ◌++◌, Option,
  none, some, ltb, leb, ◌==◌, if◌then◌else◌, length, lookup, contains_key, insert, remove, member,
  include, nat_key, Result, ok, err,
}
use call_node.Fork.Types.{
  ProtocolVersion, version_beq, version_key, ProtocolFeature, UpgradeEntry, ForkManager, ForkError,
}
use ProtocolFeature.{
  shielded_pool, agent_precompiles, bridge_operations, smart_accounts, compliance_engine,
  oracle_integration, bls_aggregate_signatures, on_chain_governance, gas_sponsorship,
}
use ForkError.{validator_not_found, version_mismatch, timelock_violation, upgrade_not_scheduled}

unfoldable pub rollback_quorum : ℕ → ℕ
rollback_quorum total_validators = (2 * total_validators % 2 ^ 32 + 2) / 3

abbrev pub default_timelock_blocks : ℕ
default_timelock_blocks = 10000

abbrev pub min_timelock_blocks : ℕ
min_timelock_blocks = 100

unfoldable pub min_version : ProtocolFeature → ProtocolVersion
min_version bridge_operations = record { major = 1; minor = 0; patch = 0 }
min_version shielded_pool = record { major = 1; minor = 1; patch = 0 }
min_version agent_precompiles = record { major = 1; minor = 1; patch = 0 }
min_version compliance_engine = record { major = 1; minor = 1; patch = 0 }
min_version gas_sponsorship = record { major = 1; minor = 1; patch = 0 }
min_version smart_accounts = record { major = 1; minor = 2; patch = 0 }
min_version oracle_integration = record { major = 1; minor = 2; patch = 0 }
min_version bls_aggregate_signatures = record { major = 1; minor = 2; patch = 0 }
min_version on_chain_governance = record { major = 1; minor = 2; patch = 0 }

unfoldable pub is_feature_enabled : ProtocolFeature → ProtocolVersion → Bool
unfolding min_version
is_feature_enabled feature v =
    let least = min_version feature in
    ltb least.major v.major
    || (v.major == least.major && ltb least.minor v.minor)
    || (v.major == least.major && v.minor == least.minor && leb least.patch v.patch)

unfoldable pub new : ProtocolVersion → ℕ → ForkManager
new initial_version total = record {
  current_version = initial_version;
  scheduled_upgrades = [];
  active_rollback = none;
  total_validators = total;
  validator_keys = [];
  timelock_blocks = default_timelock_blocks;
  rollback_nonces = [];
  rollback_history = [];
  validator_readiness = [];
  require_validator_readiness = false;
}

unfoldable pub register_validator : ForkManager → ℕ → ℕ → ForkManager
register_validator m validator_id public_key = record m {
  validator_keys = insert validator_id public_key m.validator_keys;
}

-- A stable `sort_by_key`: an element moves in front of those with a greater key only.
abbrev pub insert_by_height : UpgradeEntry → List UpgradeEntry → List UpgradeEntry
insert_by_height e [] = e ∷ []
insert_by_height e (d ∷ ds) =
    if ltb e.activation_height d.activation_height
    then (e ∷ d ∷ ds)
    else (d ∷ insert_by_height e ds)

-- The elements of the second list sorted into the first, in turn.
abbrev pub sort_into : List UpgradeEntry → List UpgradeEntry → List UpgradeEntry
sort_into sorted [] = sorted
sort_into sorted (e ∷ es) = sort_into (insert_by_height e sorted) es

unfoldable pub sort_by_height : List UpgradeEntry → List UpgradeEntry
sort_by_height es = sort_into [] es

unfoldable pub schedule_upgrade : ForkManager → UpgradeEntry → ForkManager
unfolding sort_by_height
schedule_upgrade m entry = record m {
  scheduled_upgrades = sort_by_height (m.scheduled_upgrades ++ entry ∷ []);
}

unfoldable pub schedule_governance_upgrade :
    ForkManager → ProtocolVersion → ℕ → ℕ → ℕ → Result ForkError Unit × ForkManager
unfolding schedule_upgrade
schedule_governance_upgrade m v activation proposal current_height =
    let min_activation = (current_height + m.timelock_blocks) % 2 ^ 64 in
    if ltb activation min_activation
    then (err (timelock_violation activation min_activation), m)
    else (
      ok tt,
      schedule_upgrade m (record {
        version = v;
        activation_height = activation;
        applied = false;
        proposal_id = some proposal;
        approved_at_height = some current_height;
      }),
    )

abbrev count_or_zero : Option (List ℕ) → ℕ
count_or_zero none = 0
count_or_zero (some s) = length s % 2 ^ 32

unfoldable pub check_upgrade_readiness : ForkManager → ProtocolVersion → ℕ × ℕ
unfolding rollback_quorum
check_upgrade_readiness m v =
    (count_or_zero (lookup v m.validator_readiness), rollback_quorum m.total_validators)

unfoldable pub is_upgrade_ready : ForkManager → ProtocolVersion → Bool
unfolding check_upgrade_readiness
is_upgrade_ready m v = let (ready, quorum) = check_upgrade_readiness m v in leb quorum ready

unfoldable pub clear_upgrade_readiness : ForkManager → ProtocolVersion → ForkManager
clear_upgrade_readiness m v = record m { validator_readiness = remove v m.validator_readiness }

-- An entry that a check at the height would apply.
abbrev pub is_pending : ℕ → UpgradeEntry → Bool
is_pending height e = not e.applied && leb e.activation_height height

-- The versions that the first loop collects.
unfoldable pub skip_versions : ForkManager → ℕ → List UpgradeEntry → List ProtocolVersion
unfolding check_upgrade_readiness
skip_versions m height [] = []
skip_versions m height (e ∷ es) =
    let rest = skip_versions m height es in
    let (ready, quorum) = check_upgrade_readiness m e.version in
    if is_pending height e && ltb ready quorum then include e.version rest else rest

unfoldable pub skipped_at : ForkManager → ℕ → List ProtocolVersion
unfolding skip_versions
skipped_at m height =
    if m.require_validator_readiness then skip_versions m height m.scheduled_upgrades else []

-- The second loop: the entries it leaves, the current version and the last version applied.
unfoldable pub apply_pending :
    List ProtocolVersion
    → ℕ
    → ProtocolVersion
    → Option ProtocolVersion
    → List UpgradeEntry
    → List UpgradeEntry × (ProtocolVersion × Option ProtocolVersion)
apply_pending skipped height current last [] = ([], (current, last))
apply_pending skipped height current last (e ∷ es) =
    let applies = is_pending height e && not (member e.version skipped) in
    let rest =
      apply_pending skipped height (if applies then e.version else current)
        (if applies then some e.version else last) es in
    ((if applies then record e { applied = true } else e) ∷ rest.0, rest.1)

unfoldable pub clear_last : Option ProtocolVersion → ForkManager → ForkManager
unfolding clear_upgrade_readiness
clear_last none m = m
clear_last (some v) m = clear_upgrade_readiness m v

unfoldable pub check_upgrades_at_height : ForkManager → ℕ → Option ProtocolVersion × ForkManager
unfolding apply_pending skipped_at clear_last
check_upgrades_at_height m height =
    let (entries, (current, last)) =
      apply_pending (skipped_at m height) height m.current_version none m.scheduled_upgrades in
    (last, clear_last last (record m { scheduled_upgrades = entries; current_version = current }))

abbrev pub version_after : ℕ → ProtocolVersion → List UpgradeEntry → ProtocolVersion
version_after height v [] = v
version_after height v (e ∷ es) =
    version_after height (if leb e.activation_height height then e.version else v) es

unfoldable pub version_at_height : ForkManager → ℕ → ProtocolVersion
version_at_height m height = version_after height m.current_version m.scheduled_upgrades

unfoldable pub validate_block_version : ForkManager → ℕ → ProtocolVersion → Result ForkError Unit
unfolding version_at_height
validate_block_version m block_height block_version =
    let expected = version_at_height m block_height in
    if not (version_beq block_version expected)
    then err (version_mismatch block_height expected block_version)
    else ok tt

unfoldable pub set_timelock_blocks : ForkManager → ℕ → ForkManager
set_timelock_blocks m blocks = record m { timelock_blocks = max blocks min_timelock_blocks }

abbrev find_upgrade : ℕ → List UpgradeEntry → Option UpgradeEntry
find_upgrade height [] = none
find_upgrade height (e ∷ es) =
    if not e.applied && ltb height e.activation_height then some e else find_upgrade height es

unfoldable pub next_upgrade : ForkManager → ℕ → Option UpgradeEntry
next_upgrade m current_height = find_upgrade current_height m.scheduled_upgrades

abbrev pub is_scheduled : ProtocolVersion → List UpgradeEntry → Bool
is_scheduled v [] = false
is_scheduled v (e ∷ es) = version_beq e.version v || is_scheduled v es

abbrev ready_with : ℕ → Option (List ℕ) → List ℕ
ready_with validator_id none = validator_id ∷ []
ready_with validator_id (some s) = include validator_id s

unfoldable pub signal_upgrade_readiness :
    ForkManager → ℕ → ProtocolVersion → Result ForkError Unit × ForkManager
signal_upgrade_readiness m validator_id v =
    if not (contains_key validator_id m.validator_keys)
    then (err (validator_not_found validator_id), m)
    else if not (is_scheduled v m.scheduled_upgrades)
    then (err (upgrade_not_scheduled v), m)
    else (
      ok tt,
      record m {
        validator_readiness =
            insert v (ready_with validator_id (lookup v m.validator_readiness))
              m.validator_readiness;
      },
    )
