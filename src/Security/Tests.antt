-- ===== src/Security/Tests.antt =====
-- A defence that lets one transaction of a sender wait.
use call_node.Prelude.{ℕ, ◌-◌, min, ◌≡◌, ◌⊎◌, refl, List, [], ◌∷◌, arith, err, nat_key}
use call_node.Security.Ops.{
  SecurityError, MempoolDefense, P2pDefense, validate_message, validate_tx_submission,
}
use SecurityError.{rate_limited, replay_detected, address_saturation, peer_rate_limited}
use call_node.Security.Windows.{allowed_at, allowed_at-min}
use call_node.Security.Submission.{validate_tx_submission_again}

abbrev as_held : List ℕ → List ℕ
as_held seen = seen

abbrev fresh_defense : MempoolDefense
fresh_defense = record {
  rate_limiter = record { max_requests = 5; window_ms = 1000; counters = [] };
  replay_protector = record { seen_hashes = []; max_seen = 10 };
  tx_counts = [];
  max_txs_per_address = 1;
}

abbrev one_waiting : MempoolDefense
one_waiting = (validate_tx_submission as_held fresh_defense 7 100 0).1

abbrev saturated : MempoolDefense
saturated = (validate_tx_submission as_held one_waiting 7 101 1).1

second_is_saturated :
    (validate_tx_submission as_held one_waiting 7 101 1).0 ≡ err address_saturation
unfolding validate_tx_submission
second_is_saturated = refl

-- Four hashes are as many as the set may hold: with the fifth, the latest of the others goes.
abbrev full_defense : MempoolDefense
full_defense = record fresh_defense {
  replay_protector = record { seen_hashes = 4 ∷ 3 ∷ 2 ∷ 1 ∷ []; max_seen = 4 };
}

fifth_evicts :
    (validate_tx_submission as_held full_defense 7 101 1).1.replay_protector.seen_hashes
    ≡ 101 ∷ 3 ∷ 2 ∷ 1 ∷ []
unfolding validate_tx_submission
fifth_evicts = refl

validate_tx_submission_again_example :
    let (_, after) = validate_tx_submission as_held full_defense 7 101 1 in
    let (result, _) = validate_tx_submission as_held after 7 101 2 in
    (result ≡ err rate_limited) ⊎ (result ≡ err replay_detected)
unfolding validate_tx_submission
validate_tx_submission_again_example =
    validate_tx_submission_again as_held full_defense 7 7 101 1 2 (λ e. ground (arith, e))

allowed_at-min_example : allowed_at 2 1000 (1, 0) (1 ∷ 5 ∷ 9 ∷ 12 ∷ []) ≡ min 4 (2 - 1)
allowed_at-min_example =
    allowed_at-min 2 1000 0 1 (1 ∷ 5 ∷ 9 ∷ 12 ∷ []) (omega arith)
      (omega arith, (omega arith, (omega arith, (omega arith, tt))))

abbrev peers : P2pDefense
peers = record {
  peer_rates = (3, (2, 10)) ∷ [];
  max_msgs_per_window = 2;
  window_ms = 1000;
  max_message_size = 64;
}

-- The third message of the window is too many.
third_is_limited : (validate_message peers 3 20 500).0 ≡ err peer_rate_limited
unfolding validate_message
third_is_limited = refl
