-- ===== src/Governance/Config.antt =====
-- crates/governance/src/config.rs: the configuration, its quorums and the bounds on its values.
use call_node.Prelude.{
  ℕ, ◌+◌, ◌*◌, ◌/◌, ◌%◌, ◌^◌, Bool, true, false, ◌&&◌, Option, none, some, List, [], ◌∷◌, ltb, ◌==◌,
  if◌then◌else◌, u64_max, ascii,
}
use call_node.Storage.{ConfigKey, config_text}
use call_node.Governance.Types.{
  GovError, bps_below_minimum, bps_exceeds_100, majority_below_half, period_exceeds_maximum,
  cooldown_exceeds_maximum, unknown_config_key,
}

abbrev pub total_supply : ℕ
total_supply = 1_000_000_000_000_000_000_000_000_000

abbrev pub min_quorum_bps : ℕ
min_quorum_bps = 1

abbrev pub max_bps : ℕ
max_bps = 10_000

abbrev pub min_simple_majority_bps : ℕ
min_simple_majority_bps = 5_001

abbrev pub max_period_blocks : ℕ
max_period_blocks = u64_max / 2

abbrev pub max_proposal_cooldown : ℕ
max_proposal_cooldown = 10_368_000

pub record GovernanceConfig : Type 0 where
  pub validator_quorum_bps : ℕ
  pub supply_quorum_bps : ℕ
  pub treasury_quorum_bps : ℕ
  pub simple_majority_bps : ℕ
  pub emergency_pause_bps : ℕ
  pub review_period_blocks : ℕ
  pub voting_period_blocks : ℕ
  pub timelock_period_blocks : ℕ
  pub execution_timeout_blocks : ℕ
  pub proposal_deposit : ℕ
  pub asset_registration_fee : ℕ

abbrev pub default_config : GovernanceConfig
default_config = record {
  validator_quorum_bps = 6667;
  supply_quorum_bps = 2000;
  treasury_quorum_bps = 2000;
  simple_majority_bps = 5001;
  emergency_pause_bps = 6667;
  review_period_blocks = 691_200;
  voting_period_blocks = 2_419_200;
  timelock_period_blocks = 2_419_200;
  execution_timeout_blocks = 10_368_000;
  proposal_deposit = 10_000_000_000_000_000_000_000;
  asset_registration_fee = 10_000_000_000_000_000_000;
}

-- The standard library's `div_ceil`.
abbrev pub div_ceil : ℕ → ℕ → ℕ
div_ceil a b = if ltb 0 (a % b) then a / b + 1 else a / b

-- A share of a count, in basis points, rounded up.
abbrev share : ℕ → ℕ → ℕ
share total bps = div_ceil (total * bps) 10_000 % 2 ^ 64

abbrev pub validator_quorum : GovernanceConfig → ℕ → ℕ
validator_quorum self total_validators = share total_validators self.validator_quorum_bps

abbrev pub supply_quorum : GovernanceConfig → ℕ
supply_quorum self = total_supply * self.supply_quorum_bps / 10_000

abbrev pub treasury_quorum : GovernanceConfig → ℕ
treasury_quorum self = total_supply * self.treasury_quorum_bps / 10_000

abbrev pub simple_majority : GovernanceConfig → ℕ → ℕ
simple_majority self total_validators = share total_validators self.simple_majority_bps

abbrev pub emergency_pause_threshold : GovernanceConfig → ℕ → ℕ
emergency_pause_threshold self total_validators = share total_validators self.emergency_pause_bps

abbrev pub text_eq : List ℕ → List ℕ → Bool
text_eq [] [] = true
text_eq [] (b ∷ bs) = false
text_eq (a ∷ rest) [] = false
text_eq (a ∷ rest) (b ∷ bs) = a == b && text_eq rest bs

-- The key of a list that a text names.
unfoldable pub find_key : List ℕ → List ConfigKey → Option ConfigKey
find_key text [] = none
find_key text (k ∷ ks) = if text_eq (ascii (config_text k)) text then some k else find_key text ks

abbrev pub config_keys : List ConfigKey
config_keys =
    ConfigKey.validator_quorum_bps ∷ ConfigKey.supply_quorum_bps ∷ ConfigKey.treasury_quorum_bps
    ∷ ConfigKey.simple_majority_bps ∷ ConfigKey.emergency_pause_bps ∷ ConfigKey.review_period
    ∷ ConfigKey.voting_period ∷ ConfigKey.timelock ∷ ConfigKey.execution_timeout
    ∷ ConfigKey.proposal_cooldown ∷ ConfigKey.proposal_deposit ∷ ConfigKey.asset_registration_fee
    ∷ []

abbrev bps_error : ℕ → GovError → ℕ → Option GovError
bps_error least below value =
    if ltb value least then some below else if ltb max_bps value then some bps_exceeds_100 else none

abbrev period_error : ℕ → Option GovError
period_error value = if ltb max_period_blocks value then some period_exceeds_maximum else none

-- What is wrong with a value for a key.
abbrev pub check_value : ConfigKey → ℕ → Option GovError
check_value ConfigKey.validator_quorum_bps = bps_error min_quorum_bps bps_below_minimum
check_value ConfigKey.supply_quorum_bps = bps_error min_quorum_bps bps_below_minimum
check_value ConfigKey.treasury_quorum_bps = bps_error min_quorum_bps bps_below_minimum
check_value ConfigKey.emergency_pause_bps = bps_error min_quorum_bps bps_below_minimum
check_value ConfigKey.simple_majority_bps = bps_error min_simple_majority_bps majority_below_half
check_value ConfigKey.review_period = period_error
check_value ConfigKey.voting_period = period_error
check_value ConfigKey.timelock = period_error
check_value ConfigKey.execution_timeout = period_error
check_value ConfigKey.proposal_cooldown =
    λ value. if ltb max_proposal_cooldown value then some cooldown_exceeds_maximum else none
check_value ConfigKey.proposal_deposit = λ value. none
check_value ConfigKey.asset_registration_fee = λ value. none

unfoldable pub validate_config_param : List ℕ → ℕ → Option GovError
unfolding find_key
validate_config_param key value = elim (find_key key config_keys) [
  | none ↦ some unknown_config_key
  | some k ↦ check_value k value
]
