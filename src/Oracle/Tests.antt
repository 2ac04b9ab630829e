-- ===== src/Oracle/Tests.antt =====
-- Three validators of a tracker that reports every ten blocks; two submissions make a quorum.
use call_node.Prelude.{
  ℕ, suc, ◌≡◌, refl, ap, Bool, true, List, [], ◌∷◌, some, ◌⊎◌, length, Dict, nat_key, ascii, err,
  arith,
}
use call_node.Oracle.Types.{
  OracleSubmission, OracleValidatorInfo, OracleConfig, OracleError, OracleTracker, new_tracker,
  oracle_quorum,
}
use OracleError.{validator_not_found, validator_disabled}
use call_node.Oracle.Ops.{
  Validators, sorted_prices, deviation_bps, is_outlier, aggregate_submissions, penalise,
  count_submission, cap_pending, accept_submission, submission_error, submit_price,
  distribute_rewards,
}
use call_node.Oracle.Rewards.{IsFairShare, distribute_rewards-IsFairShare}
use call_node.Oracle.Median.{IsAggregate, aggregate_submissions-IsAggregate}
use call_node.Oracle.Calls.{
  IsCapped, Call, after_call, after_calls, after_calls-IsCapped, disabled_is_refused,
}

abbrev values : Dict ℕ OracleSubmission → List OracleSubmission
values [] = []
values ((_, s) ∷ d) = s ∷ values d

length-values : (d : Dict ℕ OracleSubmission) → length (values d) ≡ length d
length-values [] = refl
length-values ((_, s) ∷ d) = ap suc (length-values d)

abbrev any_signature : ℕ → ℕ → List ℕ → Bool
any_signature key signature message = true

abbrev config_of_ten : OracleConfig
config_of_ten = record {
  update_interval = 10;
  outlier_threshold_bps = 500;
  outlier_tolerance = 1;
  twap_window_secs = 86400;
  staleness_secs = 900;
  min_data_sources = 1;
  allowed_sources = [];
}

abbrev validator : ℕ → OracleValidatorInfo
validator id = record {
  validator_id = id;
  address = id;
  public_key = id;
  is_active = true;
  outlier_count = 0;
  last_submission_block = 0;
  submission_count = 0;
}

abbrev three : Validators
three = (1, validator 1) ∷ (2, validator 2) ∷ (3, validator 3) ∷ []

abbrev submission : ℕ → ℕ → OracleSubmission
submission id price = record {
  validator_id = id;
  pair = record { base = 1; quote = 0 };
  price = price;
  block_number = 20;
  timestamp = 5;
  signature = 0;
  sources = ascii "a" ∷ [];
}

abbrev two_calls : List Call
two_calls =
    Call.submit_call (submission 1 100) config_of_ten three
    ∷ Call.submit_call (submission 2 200) config_of_ten three
    ∷ []

-- The median of 100 and 200 is 200, from which 100 is too far: the first validator is disabled.
abbrev punished : OracleTracker
punished = record {
  pending = [];
  current_contributors = 2 ∷ [];
  last_outliers = 1 ∷ [];
  outlier_counts = (1, 1) ∷ [];
  disabled_validators = 1 ∷ [];
}

after_two_calls : after_calls any_signature values two_calls new_tracker ≡ some punished
unfolding after_calls after_call submit_price submission_error accept_submission penalise
    count_submission cap_pending aggregate_submissions sorted_prices is_outlier deviation_bps
    oracle_quorum
after_two_calls = refl

quorum_of_seven : oracle_quorum 7 ≡ 5
unfolding oracle_quorum
quorum_of_seven = refl

after_calls-IsCapped_example :
    (t : OracleTracker) × (after_calls any_signature values two_calls new_tracker ≡ some t)
    × IsCapped t
after_calls-IsCapped_example = after_calls-IsCapped any_signature values length-values two_calls

disabled_is_refused_example :
    (t' : OracleTracker) × (e : OracleError) × (after_calls any_signature values two_calls punished
      ≡ some t')
    × (submit_price any_signature values t' (submission 1 150) config_of_ten three
        ≡ some (err e, t', three))
    × ((e ≡ validator_not_found) ⊎ (e ≡ validator_disabled))
disabled_is_refused_example =
    disabled_is_refused any_signature values length-values two_calls punished (submission 1 150)
      config_of_ten three refl

aggregate_submissions-IsAggregate_example :
    IsAggregate (submission 1 100 ∷ submission 2 200 ∷ submission 3 102 ∷ []) (
      aggregate_submissions
        (submission 1 100 ∷ submission 2 200 ∷ submission 3 102 ∷ [])
        config_of_ten)
aggregate_submissions-IsAggregate_example =
    aggregate_submissions-IsAggregate (submission 1 100) (submission 2 200 ∷ submission 3 102 ∷ [])
      config_of_ten

abbrev with_contributors : OracleTracker
with_contributors = record new_tracker { current_contributors = 4 ∷ 7 ∷ 9 ∷ [] }

distribute_rewards-IsFairShare_example :
    IsFairShare 11 (4 ∷ 7 ∷ 9 ∷ []) (distribute_rewards with_contributors 11)
distribute_rewards-IsFairShare_example =
    distribute_rewards-IsFairShare with_contributors 11 4 (7 ∷ 9 ∷ []) refl (λ e. omega (arith, e))
