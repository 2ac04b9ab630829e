-- ===== src/Governance/Quorums.antt =====
-- The quorums as shares rounded up, and the bounds that a change of a parameter keeps.
use mathlib.Core.Bool.{false≢true}
use mathlib.Core.Path.{ap₂}
use native.Mathlib.Nat.{mul-le-mul_left}
use call_node.Prelude.{
  ℕ, ◌+◌, ◌*◌, ◌%◌, ◌^◌, ◌≤◌, ◌<◌, ◌≡◌, sym, subst, refl, ◌∙◌, ap, ◌⊎◌, inl, inr, true, Option,
  none, some, List, [], ◌∷◌, arith, Bool-cases, Option-cases, u64_max, u128_max, ascii,
}
use call_node.Storage.{
  Slot, Storage, ConfigKey, config_text, slot_gov_config, slot_eq, slot_eq_sound, store,
}
use call_node.Governance.Types.{}
use call_node.Governance.Config.{
  GovernanceConfig, validator_quorum, div_ceil, find_key, config_keys, check_value,
  validate_config_param, text_eq,
}
use call_node.Governance.Reads.{read_config_u128}
use call_node.Governance.Effects.{allowed_governance_params, set_parameter}

-- The least number of validators that makes up a share.
abbrev pub IsLeastShare : ℕ → ℕ → ℕ → Type 0
IsLeastShare total bps q =
    (total * bps ≤ q * 10_000) × (q * 10_000 < total * bps + 10_000) × (q ≤ total)

div_ceil-IsLeastShare :
    (total bps n : ℕ)
    → n ≡ total * bps
    → n ≤ total * 10_000
    → total ≤ u64_max
    → (n ≤ div_ceil n 10_000 % 2 ^ 64 * 10_000)
      × (div_ceil n 10_000 % 2 ^ 64 * 10_000 < n + 10_000)
      × (div_ceil n 10_000 % 2 ^ 64 ≤ total)
div_ceil-IsLeastShare total bps n e le lt = ground arith

-- The quorum of the validators, for basis points of at most 10,000: no smaller number is the share,
-- and no more votes are asked for than there are validators.
pub validator_quorum-IsLeastShare :
    (config : GovernanceConfig) (total : ℕ)
    → total ≤ u64_max
    → config.validator_quorum_bps ≤ 10_000
    → IsLeastShare total config.validator_quorum_bps (validator_quorum config total)
validator_quorum-IsLeastShare config total lt le =
    div_ceil-IsLeastShare total config.validator_quorum_bps _ refl (mul-le-mul_left total le) lt

text_eq_sound : (a b : List ℕ) → text_eq a b ≡ true → a ≡ b
text_eq_sound [] [] h = refl
text_eq_sound [] (b ∷ bs) h = absurd (false≢true h)
text_eq_sound (a ∷ xs) [] h = absurd (false≢true h)
text_eq_sound (a ∷ xs) (b ∷ ys) h = ap₂ ◌∷◌ (ground arith) (text_eq_sound xs ys (ground arith))

abbrev key_or : ConfigKey → Option ConfigKey → ConfigKey
key_or j none = j
key_or j (some k) = k

find_key_sound :
    (text : List ℕ) (ks : List ConfigKey) (k : ConfigKey)
    → find_key text ks ≡ some k
    → ascii (config_text k) ≡ text
unfolding find_key
find_key_sound text [] k h = ground arith
find_key_sound text (j ∷ ks) k h = elim (Bool-cases (text_eq (ascii (config_text j)) text)) [
  | inl same ↦
      let found : some j ≡ some k = sym (rw same refl) ∙ h in
      subst (λ x. ascii (config_text x) ≡ text) (ap (key_or j) found) (text_eq_sound _ text same)
  | inr differ ↦ find_key_sound text ks k (sym (rw differ refl) ∙ h)
]

find_key_text : (k : ConfigKey) → find_key (ascii (config_text k)) config_keys ≡ some k
unfolding find_key
find_key_text ConfigKey.validator_quorum_bps = refl
find_key_text ConfigKey.supply_quorum_bps = refl
find_key_text ConfigKey.treasury_quorum_bps = refl
find_key_text ConfigKey.simple_majority_bps = refl
find_key_text ConfigKey.emergency_pause_bps = refl
find_key_text ConfigKey.review_period = refl
find_key_text ConfigKey.voting_period = refl
find_key_text ConfigKey.timelock = refl
find_key_text ConfigKey.execution_timeout = refl
find_key_text ConfigKey.proposal_cooldown = refl
find_key_text ConfigKey.proposal_deposit = refl
find_key_text ConfigKey.asset_registration_fee = refl

-- A key that is allowed is checked by its own bounds.
checked :
    (text : List ℕ) (k : ConfigKey) (value : ℕ)
    → find_key text allowed_governance_params ≡ some k
    → validate_config_param text value ≡ check_value k value
unfolding validate_config_param
checked text k value h =
    subst (λ t. validate_config_param t value ≡ check_value k value)
      (find_key_sound text allowed_governance_params k h)
      (rw (validate_config_param, find_key_text k) refl)

abbrev pub IsShare : ℕ → ℕ → Type 0
IsShare least value = (least ≤ value) × (value ≤ 10_000)

abbrev pub longest_period : ℕ
longest_period = 9_223_372_036_854_775_807

-- The bounds of each value: shares are in basis points, 10,000 of which are the whole, and the
-- majority is more than half; periods are below 2 ^ 63 blocks, and the cooldown has its own limit.
abbrev pub IsWithin : ConfigKey → ℕ → Type 0
IsWithin ConfigKey.validator_quorum_bps value = IsShare 1 value
IsWithin ConfigKey.supply_quorum_bps value = IsShare 1 value
IsWithin ConfigKey.treasury_quorum_bps value = IsShare 1 value
IsWithin ConfigKey.emergency_pause_bps value = IsShare 1 value
IsWithin ConfigKey.simple_majority_bps value = IsShare 5_001 value
IsWithin ConfigKey.review_period value = value ≤ longest_period
IsWithin ConfigKey.voting_period value = value ≤ longest_period
IsWithin ConfigKey.timelock value = value ≤ longest_period
IsWithin ConfigKey.execution_timeout value = value ≤ longest_period
IsWithin ConfigKey.proposal_cooldown value = value ≤ 10_368_000
IsWithin ConfigKey.proposal_deposit value = Unit
IsWithin ConfigKey.asset_registration_fee value = Unit

-- A value that is not refused is within the bounds.
check_value-IsWithin : (k : ConfigKey) (value : ℕ) → check_value k value ≡ none → IsWithin k value
check_value-IsWithin ConfigKey.validator_quorum_bps value h = ground (arith, h)
check_value-IsWithin ConfigKey.supply_quorum_bps value h = ground (arith, h)
check_value-IsWithin ConfigKey.treasury_quorum_bps value h = ground (arith, h)
check_value-IsWithin ConfigKey.emergency_pause_bps value h = ground (arith, h)
check_value-IsWithin ConfigKey.simple_majority_bps value h = ground (arith, h)
check_value-IsWithin ConfigKey.review_period value h = ground (arith, h)
check_value-IsWithin ConfigKey.voting_period value h = ground (arith, h)
check_value-IsWithin ConfigKey.timelock value h = ground (arith, h)
check_value-IsWithin ConfigKey.execution_timeout value h = ground (arith, h)
check_value-IsWithin ConfigKey.proposal_cooldown value h = ground (arith, h)
check_value-IsWithin ConfigKey.proposal_deposit value h = tt
check_value-IsWithin ConfigKey.asset_registration_fee value h = tt

-- What is stored for a key is within its bounds.
abbrev pub IsBounded : ConfigKey → Storage → Type 0
IsBounded k st = IsWithin k (read_config_u128 k st)

abbrev key_of : Slot → ConfigKey → ConfigKey
key_of (slot_gov_config k) d = k
key_of _ d = d

written-IsBounded :
    (k j : ConfigKey) (value : ℕ) (st : Storage)
    → value ≤ u128_max
    → check_value j value ≡ none
    → IsBounded k st
    → IsBounded k (store (slot_gov_config j) value st)
written-IsBounded k j value st le h b =
    elim (Bool-cases (slot_eq (slot_gov_config k) (slot_gov_config j))) [
      | inl same ↦
          let e : k ≡ j =
            ap (λ s. key_of s k) (slot_eq_sound (slot_gov_config k) (slot_gov_config j) same) in
          let v : read_config_u128 k (store (slot_gov_config j) value st) ≡ value = ground arith in
          rw v (subst (λ x. IsWithin x value) (sym e) (check_value-IsWithin j value h))
      | inr differ ↦
          let v : read_config_u128 k (store (slot_gov_config j) value st) ≡ read_config_u128 k st =
            ground arith in
          rw v b
    ]

set_parameter-cases :
    (text : List ℕ) (value : ℕ) (st : Storage)
    → ((set_parameter text value st).1 ≡ st)
      ⊎ ((j : ConfigKey) × (find_key text allowed_governance_params ≡ some j)
          × (validate_config_param text value ≡ none)
          × ((set_parameter text value st).1 ≡ store (slot_gov_config j) value st))
unfolding set_parameter
set_parameter-cases text value st = elim (Option-cases (find_key text allowed_governance_params)) [
  | inl none_found ↦ inl (ground arith)
  | inr (j, found) ↦ elim (Option-cases (validate_config_param text value)) [
    | inl valid ↦ inr (j, found, valid, ground arith)
    | inr (e, wrong) ↦ inl (ground arith)
  ]
]

-- A change of a parameter, whatever its key and its value, which is a u128, leaves every value of
-- the configuration that was within its bounds within them: the quorums between 1 and 10,000 basis
-- points, the majority between 5,001 and 10,000, the periods below 2 ^ 63 blocks and the cooldown at
-- most 10,368,000.
pub set_parameter-IsBounded :
    (text : List ℕ) (value : ℕ) (k : ConfigKey) (st : Storage)
    → value ≤ u128_max
    → IsBounded k st
    → IsBounded k (set_parameter text value st).1
set_parameter-IsBounded text value k st le b = elim (set_parameter-cases text value st) [
  | inl same ↦ subst (IsBounded k) (sym same) b
  | inr (j, found, valid, wrote) ↦
      subst (IsBounded k) (sym wrote)
        (written-IsBounded k j value st le (sym (checked text j value found) ∙ valid) b)
]
