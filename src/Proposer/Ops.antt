-- ===== src/Proposer/Ops.antt =====
-- The functions of crates/consensus/src/proposer.rs. `vrf_sortition_score` of crates/crypto and the
-- hash are parameters; a score is the number that its 32 bytes spell, big end first, so that their
-- order is that of the bytes. A division by zero, which ends the program, is `none`.
use call_node.Prelude.{
  ℕ, ◌+◌, ◌-◌, ◌*◌, ◌/◌, ◌%◌, ◌^◌, max, Bool, true, false, ◌&&◌, ◌||◌, List, [], ◌∷◌, ◌++◌, map,
  Option, none, some, ltb, leb, ◌==◌, if◌then◌else◌, length, get_elem?, take, Dict, lookup, nat_key,
  member, to_le_bytes, to_be_bytes,
}

pub record ConsensusParams : Type 0 where
  pub max_validators : ℕ
  pub subset_size : ℕ
  pub block_time_millis : ℕ
  pub slashing_window : ℕ
  pub oracle_request_delay_ms : ℕ
  pub epoch_length : ℕ
  pub min_self_stake : ℕ
  pub unbonding_period_blocks : ℕ
  pub offline_slash_rate_bps : ℕ
  pub key_rotation_grace_blocks : ℕ
  pub churn_limit_quotient : ℕ
  pub min_churn_limit : ℕ
  pub safety_ratio_num : ℕ
  pub safety_ratio_den : ℕ
  pub unbonding_slash_extend : ℕ
  pub max_unbonding_multiplier : ℕ

abbrev pub default_params : ConsensusParams
default_params = record {
  max_validators = 216;
  subset_size = 21;
  block_time_millis = 250;
  slashing_window = 10000;
  oracle_request_delay_ms = 200;
  epoch_length = 100;
  min_self_stake = 1000000 * 10 ^ 18;
  unbonding_period_blocks = 120960;
  offline_slash_rate_bps = 10;
  key_rotation_grace_blocks = 100;
  churn_limit_quotient = 16;
  min_churn_limit = 2;
  safety_ratio_num = 4;
  safety_ratio_den = 3;
  unbonding_slash_extend = 2;
  max_unbonding_multiplier = 10;
}

unfoldable pub is_valid_validator_count : ConsensusParams → ℕ → Bool
is_valid_validator_count p count = leb 100 count && leb count p.max_validators

unfoldable pub safety_floor : ConsensusParams → Option ℕ
safety_floor p =
    let num = p.subset_size * p.safety_ratio_num % 2 ^ 64 in
    if p.safety_ratio_den == 0
    then none
    else some ((num + p.safety_ratio_den - 1) % 2 ^ 64 / p.safety_ratio_den)

unfoldable pub churn_limit : ConsensusParams → ℕ → Option ℕ
churn_limit p qualified_count =
    if p.churn_limit_quotient == 0
    then none
    else some (max p.min_churn_limit (qualified_count / p.churn_limit_quotient))

unfoldable pub derive_vrf_seed : (List ℕ → ℕ) → ℕ → ℕ → ℕ
derive_vrf_seed keccak256 prev_block_hash round =
    keccak256 (to_be_bytes 32 prev_block_hash ++ to_le_bytes 8 round)

-- A stable sort by a number: an element moves in front of those with a greater one only.
module _ {A : Type 0} (key : A → ℕ) where
  abbrev pub insert_by_key : A → List A → List A
  insert_by_key a [] = a ∷ []
  insert_by_key a (b ∷ bs) = if ltb (key a) (key b) then (a ∷ b ∷ bs) else (b ∷ insert_by_key a bs)

  abbrev pub sort_from : List A → List A → List A
  sort_from sorted [] = sorted
  sort_from sorted (a ∷ rest) = sort_from (insert_by_key a sorted) rest

abbrev pub is_nil : List ℕ → Bool
is_nil [] = true
is_nil (x ∷ xs) = false

module _ (vrf_sortition_score : ℕ → ℕ → ℕ) where
  -- The validators that have a key, with their scores.
  abbrev pub scored : Dict ℕ ℕ → ℕ → List ℕ → List (ℕ × ℕ)
  scored keys seed [] = []
  scored keys seed (id ∷ ids) = elim (lookup id keys) [
    | none ↦ scored keys seed ids
    | some key ↦ (id, vrf_sortition_score key seed) ∷ scored keys seed ids
  ]

  unfoldable pub select_proposer_subset : List ℕ → Dict ℕ ℕ → ℕ → ℕ → List ℕ
  select_proposer_subset validators keys seed subset_size =
      let ranked = sort_from (λ (v : ℕ × ℕ). v.1) [] (scored keys seed validators) in
      if is_nil validators || subset_size == 0
      then []
      else sort_from (λ (id : ℕ). id) [] (map (λ (v : ℕ × ℕ). v.0) (take subset_size ranked))

unfoldable pub select_proposer : List ℕ → ℕ → Option ℕ
select_proposer subset round =
    if is_nil subset then none else get_elem? subset (round % length subset)

unfoldable pub verify_proposer_in_subset : ℕ → List ℕ → Bool
verify_proposer_in_subset proposer subset = member proposer subset
