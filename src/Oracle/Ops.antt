-- ===== src/Oracle/Ops.antt =====
-- OracleTracker of crates/oracle/src/tracker.rs. `ed25519_verify` and the order in which a HashMap
-- is iterated are parameters. A median of no prices, which ends the program, is `none`.
use call_node.Prelude.{
  ℕ, ◌+◌, ◌-◌, ◌*◌, ◌/◌, ◌%◌, ◌^◌, min, max, Bool, true, false, not, ◌&&◌, ◌||◌, List, [], ◌∷◌, map,
  Option, none, some, ltb, leb, ◌==◌, if◌then◌else◌, length, get_elem?, Dict, lookup, insert,
  remove, member, include, nat_key, Result, ok, err,
}
use call_node.Proposer.Ops.{sort_from}
use mathlib.Core.Option
use call_node.Oracle.Types.{
  PricePair, pair_key, OracleSubmission, AggregatedPrice, OracleValidatorInfo, OracleConfig,
  OracleError, OracleTracker, max_pending_per_pair, oracle_quorum, oracle_message_hash,
}
use OracleError.{
  validator_not_found, validator_disabled, wrong_period, invalid_signature,
  insufficient_data_sources, disallowed_source,
}

-- A validator and its price.
abbrev pub price_of : ℕ × ℕ → ℕ
price_of e = e.1

unfoldable pub sorted_prices : List OracleSubmission → List (ℕ × ℕ)
sorted_prices submissions =
    sort_from price_of []
      (map (λ s. (OracleSubmission.validator_id s, OracleSubmission.price s)) submissions)

unfoldable pub deviation_bps : ℕ → ℕ → ℕ
deviation_bps median price =
    if ltb median price
    then (price - median) * 10000 % 2 ^ 128 / median
    else (median - price) * 10000 % 2 ^ 128 / median

-- The test of the first `filter_map`.
unfoldable pub is_outlier : ℕ → ℕ → ℕ → Bool
is_outlier threshold_bps median price =
    not (median == 0) && ltb threshold_bps (deviation_bps median price)

abbrev pub outliers_of : ℕ → ℕ → List (ℕ × ℕ) → List ℕ
outliers_of threshold_bps median [] = []
outliers_of threshold_bps median (e ∷ es) =
    if is_outlier threshold_bps median e.1
    then (e.0 ∷ outliers_of threshold_bps median es)
    else outliers_of threshold_bps median es

abbrev pub contributors_of : List ℕ → List (ℕ × ℕ) → List ℕ
contributors_of outliers [] = []
contributors_of outliers (e ∷ es) =
    if member e.0 outliers then contributors_of outliers es else (e.0 ∷ contributors_of outliers es)

-- `min().unwrap_or(0)` over the timestamps.
abbrev pub first_timestamp : List OracleSubmission → ℕ
first_timestamp [] = 0
first_timestamp (s ∷ []) = s.timestamp
first_timestamp (s ∷ t ∷ ss) = min s.timestamp (first_timestamp (t ∷ ss))

abbrev pub first_block : List OracleSubmission → ℕ
first_block [] = 0
first_block (s ∷ ss) = s.block_number

abbrev pub first_pair : List OracleSubmission → PricePair
first_pair [] = record { base = 0; quote = 0 }
first_pair (s ∷ ss) = s.pair

-- What is made of the submissions and their sorted prices, for the price at the middle.
abbrev pub summarise :
    List OracleSubmission
    → OracleConfig
    → List (ℕ × ℕ)
    → Option (ℕ × ℕ)
    → Option (AggregatedPrice × List ℕ × List ℕ)
summarise submissions config prices none = none
summarise submissions config prices (some (_, median)) =
    let outlier_validators = outliers_of config.outlier_threshold_bps median prices in
    some (
      record {
        pair = first_pair submissions;
        median_price = median;
        block_number = first_block submissions;
        timestamp = first_timestamp submissions;
        submission_count = length submissions;
        outlier_count = length outlier_validators;
      },
      outlier_validators,
      contributors_of outlier_validators prices,
    )

-- The submissions in the order of iteration.
unfoldable pub aggregate_submissions :
    List OracleSubmission → OracleConfig → Option (AggregatedPrice × List ℕ × List ℕ)
aggregate_submissions submissions config =
    let prices = sorted_prices submissions in
    summarise submissions config prices (get_elem? prices (length prices / 2))

abbrev pub same_text : List ℕ → List ℕ → Bool
same_text [] [] = true
same_text [] (b ∷ bs) = false
same_text (a ∷ rest) [] = false
same_text (a ∷ rest) (b ∷ bs) = (a == b) && same_text rest bs

abbrev pub contains_text : List (List ℕ) → List ℕ → Bool
contains_text [] source = false
contains_text (t ∷ ts) source = same_text t source || contains_text ts source

-- The first source that is not allowed; no restriction where none are listed.
abbrev pub disallowed : List (List ℕ) → List (List ℕ) → Option (List ℕ)
disallowed [] sources = none
disallowed (t ∷ ts) [] = none
disallowed (t ∷ ts) (source ∷ sources) =
    if contains_text (t ∷ ts) source then disallowed (t ∷ ts) sources else some source

-- `is_multiple_of`.
abbrev pub is_multiple_of : ℕ → ℕ → Bool
is_multiple_of n interval = if interval == 0 then n == 0 else n % interval == 0

abbrev pub Validators : Type 0
Validators = Dict ℕ OracleValidatorInfo

abbrev pub count_or_zero : Option ℕ → ℕ
count_or_zero none = 0
count_or_zero (some n) = n

abbrev pub active_count : Validators → ℕ
active_count [] = 0
active_count ((_, v) ∷ vs) = if v.is_active then 1 + active_count vs else active_count vs

-- The strike of an outlier: a validator that is listed gets the count, and is disabled at the
-- tolerance.
abbrev pub strike :
    ℕ → ℕ → ℕ → OracleTracker → Validators → Option OracleValidatorInfo → OracleTracker × Validators
strike tolerance vid count t validators none = (t, validators)
strike tolerance vid count t validators (some v) =
    if leb tolerance count
    then (
      record t { disabled_validators = include vid t.disabled_validators },
      insert vid (record v { outlier_count = count; is_active = false }) validators,
    )
    else (t, insert vid (record v { outlier_count = count }) validators)

unfoldable pub penalise : ℕ → ℕ → OracleTracker → Validators → OracleTracker × Validators
penalise tolerance vid t validators =
    let count = (count_or_zero (lookup vid t.outlier_counts) + 1) % 2 ^ 32 in
    let counted = record t { outlier_counts = insert vid count t.outlier_counts } in
    strike tolerance vid count counted validators (lookup vid validators)

abbrev pub penalise_all : ℕ → List ℕ → OracleTracker → Validators → OracleTracker × Validators
penalise_all tolerance [] t validators = (t, validators)
penalise_all tolerance (vid ∷ vids) t validators =
    let (t₁, validators₁) = penalise tolerance vid t validators in
    penalise_all tolerance vids t₁ validators₁

-- `get_mut` and the tracking of the validator.
unfoldable pub count_submission : ℕ → ℕ → Validators → Validators
count_submission vid block_number validators = elim (lookup vid validators) [
  | none ↦ validators
  | some v ↦
      insert vid
        (record v {
          last_submission_block = max v.last_submission_block block_number;
          submission_count = (v.submission_count + 1) % 2 ^ 64;
        })
        validators
]

-- `entry(pair).or_default()`.
abbrev pub or_default : Option (Dict ℕ OracleSubmission) → Dict ℕ OracleSubmission
or_default none = []
or_default (some submissions) = submissions

unfoldable pub clear_tracking : OracleTracker → OracleTracker
clear_tracking t = record t { current_contributors = []; last_outliers = [] }

unfoldable pub clear_pending : OracleTracker → OracleTracker
clear_pending t = record t { pending = [] }

abbrev pub rewards_from : ℕ → ℕ → ℕ → List ℕ → List (ℕ × ℕ)
rewards_from per_validator remainder i [] = []
rewards_from per_validator remainder i (vid ∷ vids) =
    (vid, per_validator + (if ltb i remainder then 1 else 0))
    ∷ rewards_from per_validator remainder (i + 1) vids

unfoldable pub distribute_rewards : OracleTracker → ℕ → List (ℕ × ℕ)
distribute_rewards t reward_pool =
    let count = length t.current_contributors in
    if reward_pool == 0 || count == 0
    then []
    else rewards_from (reward_pool / count) (reward_pool % count) 0 t.current_contributors

-- The outcome of an aggregation is recorded and the outliers penalised.
abbrev pub record_quorum :
    ℕ
    → OracleTracker
    → Validators
    → Option (AggregatedPrice × List ℕ × List ℕ)
    → Option (Option AggregatedPrice × OracleTracker × Validators)
record_quorum tolerance t validators none = none
record_quorum tolerance t validators (some (aggregated, outliers, contributors)) =
    let recorded = record t { last_outliers = outliers; current_contributors = contributors } in
    let (after, punished) = penalise_all tolerance outliers recorded validators in
    some (some aggregated, after, punished)

unfoldable pub cap_pending : PricePair → Dict ℕ OracleSubmission → OracleTracker → OracleTracker
cap_pending p submissions t =
    if leb max_pending_per_pair (length submissions)
    then record t { pending = remove p t.pending }
    else t

abbrev pub accepted :
    Option (Option AggregatedPrice × OracleTracker × Validators)
    → Option (Result OracleError (Option AggregatedPrice) × OracleTracker × Validators)
accepted none = none
accepted (some (aggregated, t, validators)) = some (ok aggregated, t, validators)

-- The error of the checks, or else what follows them.
abbrev pub unless_refused :
    OracleTracker
    → Validators
    → Option OracleError
    → Option (Option AggregatedPrice × OracleTracker × Validators)
    → Option (Result OracleError (Option AggregatedPrice) × OracleTracker × Validators)
unless_refused t validators none rest = accepted rest
unless_refused t validators (some e) rest = some (err e, t, validators)

module _ (in_order : Dict ℕ OracleSubmission → List OracleSubmission) where
  -- What follows the checks.
  unfoldable pub accept_submission :
      OracleTracker
      → OracleConfig
      → OracleSubmission
      → Validators
      → Option (Option AggregatedPrice × OracleTracker × Validators)
  accept_submission t config s validators =
      let submissions = insert s.validator_id s (or_default (lookup s.pair t.pending)) in
      let pending₁ = insert s.pair submissions t.pending in
      let counted = count_submission s.validator_id s.block_number validators in
      if leb (oracle_quorum (active_count counted)) (length submissions)
      then record_quorum config.outlier_tolerance (record t { pending = remove s.pair pending₁ })
          counted (aggregate_submissions (in_order submissions) config)
      else some (none, cap_pending s.pair submissions (record t { pending = pending₁ }), counted)

module _ (ed25519_verify : ℕ → ℕ → List ℕ → Bool) where
  -- The checks before a submission is accepted, for the validator found.
  unfoldable pub submission_error :
      OracleTracker → OracleConfig → OracleSubmission → OracleValidatorInfo → Option OracleError
  submission_error t config s v =
      let message = oracle_message_hash s.validator_id s.pair s.price s.block_number s.timestamp in
      if not v.is_active || member s.validator_id t.disabled_validators
      then some validator_disabled
      else if not (is_multiple_of s.block_number config.update_interval)
      then some wrong_period
      else if not (ed25519_verify v.public_key s.signature message)
      then some invalid_signature
      else if ltb (length s.sources) config.min_data_sources
      then some (insufficient_data_sources (length s.sources) config.min_data_sources)
      else Option.map disallowed_source (disallowed config.allowed_sources s.sources)

  -- With the validator looked up.
  abbrev pub check_found :
      OracleTracker
      → OracleConfig
      → OracleSubmission
      → Option OracleValidatorInfo
      → Option OracleError
  check_found t config s none = some validator_not_found
  check_found t config s (some v) = submission_error t config s v

  unfoldable pub submit_price :
      (Dict ℕ OracleSubmission → List OracleSubmission)
      → OracleTracker
      → OracleSubmission
      → OracleConfig
      → Validators
      → Option (Result OracleError (Option AggregatedPrice) × OracleTracker × Validators)
  submit_price in_order t s config validators =
      unless_refused t validators (check_found t config s (lookup s.validator_id validators))
        (accept_submission in_order t config s validators)
