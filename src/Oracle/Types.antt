-- ===== src/Oracle/Types.antt =====
-- The data of crates/oracle/src/lib.rs and tracker.rs, and the helpers of constants.rs and crypto.rs.
use call_node.Prelude.{
  ℕ, ◌+◌, ◌*◌, ◌/◌, ◌%◌, ◌^◌, ◌≡◌, min, max, Bool, true, ◌&&◌, List, [], ◌++◌, ◌==◌, ◌↔◌,
  if◌then◌else◌, Dict, Key, to_le_bytes, ascii, arith,
}

pub record PricePair : Type 0 where
  pub base : ℕ
  pub quote : ℕ

pub pair_beq_iff : (p q : PricePair) → ((p.base == q.base) && (p.quote == q.quote) ≡ true) ↔ (p ≡ q)
pair_beq_iff p q = ground arith

instance abbrev pub pair_key : Key PricePair
pair_key = record {
  beq = λ p q. (p.base == q.base) && (p.quote == q.quote);
  beq_iff = pair_beq_iff;
}

pub record OracleSubmission : Type 0 where
  pub validator_id : ℕ
  pub pair : PricePair
  pub price : ℕ
  pub block_number : ℕ
  pub timestamp : ℕ
  pub signature : ℕ
  pub sources : List (List ℕ)

pub record AggregatedPrice : Type 0 where
  pub pair : PricePair
  pub median_price : ℕ
  pub block_number : ℕ
  pub timestamp : ℕ
  pub submission_count : ℕ
  pub outlier_count : ℕ

pub record OracleValidatorInfo : Type 0 where
  pub validator_id : ℕ
  pub address : ℕ
  pub public_key : ℕ
  pub is_active : Bool
  pub outlier_count : ℕ
  pub last_submission_block : ℕ
  pub submission_count : ℕ

pub record OracleConfig : Type 0 where
  pub update_interval : ℕ
  pub outlier_threshold_bps : ℕ
  pub outlier_tolerance : ℕ
  pub twap_window_secs : ℕ
  pub staleness_secs : ℕ
  pub min_data_sources : ℕ
  pub allowed_sources : List (List ℕ)

pub data OracleError : Type 0 where
  validator_not_found validator_disabled wrong_period invalid_signature : OracleError
  insufficient_data_sources : (got need : ℕ) → OracleError
  disallowed_source : List ℕ → OracleError

pub record OracleTracker : Type 0 where
  pub pending : Dict PricePair (Dict ℕ OracleSubmission)
  pub current_contributors : List ℕ
  pub last_outliers : List ℕ
  pub outlier_counts : Dict ℕ ℕ
  pub disabled_validators : List ℕ

abbrev pub new_tracker : OracleTracker
new_tracker = record {
  pending = [];
  current_contributors = [];
  last_outliers = [];
  outlier_counts = [];
  disabled_validators = [];
}

abbrev pub max_pending_per_pair : ℕ
max_pending_per_pair = 256

unfoldable pub oracle_quorum : ℕ → ℕ
oracle_quorum active_count =
    if active_count == 0 then 0 else max (min ((2 * active_count + 2) % 2 ^ 64 / 3) active_count) 1

unfoldable pub oracle_message_hash : ℕ → PricePair → ℕ → ℕ → ℕ → List ℕ
oracle_message_hash validator_id p price block_number timestamp =
    ascii "CALL_ORACLE_V1"
    ++ to_le_bytes 4 validator_id
    ++ to_le_bytes 8 p.base
    ++ to_le_bytes 8 p.quote
    ++ to_le_bytes 16 price
    ++ to_le_bytes 8 block_number
    ++ to_le_bytes 8 timestamp
