-- ===== src/Security/Ops.antt =====
-- The defences of crates/protocol/src/security.rs. Times are in milliseconds and wrap at 64 bits.
-- The order in which a HashSet is iterated is a parameter.
use call_node.Prelude.{
  ℕ, ◌+◌, ◌-◌, ◌/◌, ◌%◌, ◌^◌, Bool, true, false, not, List, [], ◌∷◌, Option, none, some, ltb, leb,
  take, ◌==◌, if◌then◌else◌, length, Dict, lookup, insert, member, include, exclude, nat_key,
  Result, ok, err,
}

pub record RateLimiter : Type 0 where
  pub max_requests : ℕ
  pub window_ms : ℕ
  pub counters : Dict ℕ (ℕ × ℕ)

pub data SecurityError : Type 0 where
  rate_limited replay_detected address_saturation : SecurityError
  message_too_large : (size most : ℕ) → SecurityError
  peer_rate_limited : SecurityError

-- `or_insert`.
abbrev pub entry_or : ℕ × ℕ → Option (ℕ × ℕ) → ℕ × ℕ
entry_or e none = e
entry_or e (some f) = f

-- The decision on an entry, the count and the start of its window, and the entry it leaves.
unfoldable pub count_request : ℕ → ℕ → ℕ → ℕ × ℕ → Bool × (ℕ × ℕ)
count_request max_requests window_ms now (count, start) =
    if leb ((start + window_ms) % 2 ^ 64) now
    then (true, (1, now))
    else if ltb count max_requests
    then (true, (count + 1, start))
    else (false, (count, start))

unfoldable pub allow : RateLimiter → ℕ → ℕ → Bool × RateLimiter
unfolding count_request
allow r address now =
    let (allowed, entry) =
      count_request r.max_requests r.window_ms now
        (entry_or (0, now) (lookup address r.counters)) in
    (allowed, record r { counters = insert address entry r.counters })

abbrev pub retain_open : ℕ → ℕ → Dict ℕ (ℕ × ℕ) → Dict ℕ (ℕ × ℕ)
retain_open window_ms now [] = []
retain_open window_ms now ((a, e) ∷ d) =
    if ltb now ((e.1 + window_ms) % 2 ^ 64)
    then ((a, e) ∷ retain_open window_ms now d)
    else retain_open window_ms now d

unfoldable pub cleanup : RateLimiter → ℕ → RateLimiter
cleanup r now = record r { counters = retain_open r.window_ms now r.counters }

pub record ReplayProtector : Type 0 where
  pub seen_hashes : List ℕ
  pub max_seen : ℕ

-- The filter that spares the hash just recorded.
abbrev pub without : ℕ → List ℕ → List ℕ
without hash [] = []
without hash (h ∷ hs) = if h == hash then without hash hs else (h ∷ without hash hs)

abbrev pub exclude_all : List ℕ → List ℕ → List ℕ
exclude_all [] s = s
exclude_all (h ∷ hs) s = exclude_all hs (exclude h s)

unfoldable pub remove_hash : ReplayProtector → ℕ → ReplayProtector
remove_hash p hash = record p { seen_hashes = exclude hash p.seen_hashes }

pub record MempoolDefense : Type 0 where
  pub rate_limiter : RateLimiter
  pub replay_protector : ReplayProtector
  pub tx_counts : Dict ℕ ℕ
  pub max_txs_per_address : ℕ

abbrev pub count_or_zero : Option ℕ → ℕ
count_or_zero none = 0
count_or_zero (some n) = n

-- `get_mut` and `saturating_sub(1)`.
abbrev pub decrement : ℕ → Dict ℕ ℕ → Dict ℕ ℕ
decrement sender counts = elim (lookup sender counts) [
  | none ↦ counts
  | some n ↦ insert sender (n - 1) counts
]

unfoldable pub on_tx_confirmed : MempoolDefense → ℕ → MempoolDefense
on_tx_confirmed d sender = record d { tx_counts = decrement sender d.tx_counts }

unfoldable pub rollback_submission : MempoolDefense → ℕ → ℕ → MempoolDefense
unfolding remove_hash
rollback_submission d sender hash = record d {
  tx_counts = decrement sender d.tx_counts;
  replay_protector = remove_hash d.replay_protector hash;
}

module _ (in_order : List ℕ → List ℕ) where
  unfoldable pub check_and_record : ReplayProtector → ℕ → Bool × ReplayProtector
  check_and_record p hash =
      let seen = include hash p.seen_hashes in
      let first_seen = not (member hash p.seen_hashes) in
      let to_remove = take (p.max_seen / 4) (without hash (in_order seen)) in
      if ltb p.max_seen (length seen)
      then (first_seen, record p { seen_hashes = exclude_all to_remove seen })
      else (first_seen, record p { seen_hashes = seen })

  unfoldable pub validate_tx_submission :
      MempoolDefense → ℕ → ℕ → ℕ → Result SecurityError (Unit {0}) × MempoolDefense
  unfolding allow check_and_record
  validate_tx_submission d sender hash now =
      let (allowed, limiter) = allow d.rate_limiter sender now in
      let (first_seen, protector) = check_and_record d.replay_protector hash in
      let limited = record d { rate_limiter = limiter } in
      let recorded = record limited { replay_protector = protector } in
      let count = count_or_zero (lookup sender d.tx_counts) in
      if not allowed
      then (err SecurityError.rate_limited, limited)
      else if not first_seen
      then (err SecurityError.replay_detected, recorded)
      else if leb d.max_txs_per_address count
      then (
        err SecurityError.address_saturation,
        record recorded { tx_counts = insert sender count d.tx_counts },
      )
      else (ok tt, record recorded { tx_counts = insert sender (count + 1) d.tx_counts })

unfoldable pub cleanup_defense : MempoolDefense → ℕ → MempoolDefense
unfolding cleanup
cleanup_defense d now = record d { rate_limiter = cleanup d.rate_limiter now }

-- A peer is the number that the bytes of its name spell.
pub record P2pDefense : Type 0 where
  pub peer_rates : Dict ℕ (ℕ × ℕ)
  pub max_msgs_per_window : ℕ
  pub window_ms : ℕ
  pub max_message_size : ℕ

unfoldable pub validate_message :
    P2pDefense → ℕ → ℕ → ℕ → Result SecurityError (Unit {0}) × P2pDefense
validate_message d peer_id message_size now =
    let (count, start) = entry_or (0, now) (lookup peer_id d.peer_rates) in
    let with_entry = λ (e : ℕ × ℕ). record d { peer_rates = insert peer_id e d.peer_rates } in
    if ltb d.max_message_size message_size
    then (err (SecurityError.message_too_large message_size d.max_message_size), d)
    else if leb ((start + d.window_ms) % 2 ^ 64) now
    then (ok tt, with_entry (1, now))
    else if leb d.max_msgs_per_window count
    then (err SecurityError.peer_rate_limited, with_entry (count, start))
    else (ok tt, with_entry (count + 1, start))

unfoldable pub cleanup_peers : P2pDefense → ℕ → P2pDefense
cleanup_peers d now = record d { peer_rates = retain_open d.window_ms now d.peer_rates }
