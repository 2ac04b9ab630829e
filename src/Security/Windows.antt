-- ===== src/Security/Windows.antt =====
-- How many requests a window of crates/protocol/src/security.rs lets through.
use call_node.Prelude.{
  ℕ, ◌+◌, ◌-◌, min, length, ◌%◌, ◌^◌, ◌≤◌, ◌<◌, ◌≡◌, refl, Bool, true, false, List, [], ◌∷◌, arith,
  ltb, leb, if◌then◌else◌, All, Bool-cases, inl, inr, Result, ok, err, lookup, nat_key,
}
use call_node.Security.Ops.{
  count_request, RateLimiter, SecurityError, P2pDefense, allow, validate_message, entry_or,
}

-- How many requests of an address at the given times are let through.
abbrev pub allowed_at : ℕ → ℕ → ℕ × ℕ → List ℕ → ℕ
allowed_at max_requests window_ms entry [] = 0
allowed_at max_requests window_ms entry (now ∷ later) =
    let (allowed, next) = count_request max_requests window_ms now entry in
    let rest = allowed_at max_requests window_ms next later in if allowed then rest + 1 else rest

-- While its window is open and ends below 2 ^ 64, an address gets what is left of the limit and no
-- more: of its requests as many are let through as there are, up to what is left.
pub allowed_at-min :
    (max_requests window_ms start count : ℕ) (times : List ℕ)
    → start + window_ms < 2 ^ 64
    → All (λ t. t < start + window_ms) times
    → allowed_at max_requests window_ms (count, start) times
      ≡ min (length times) (max_requests - count)
unfolding count_request
allowed_at-min max_requests window_ms start count [] b h = omega arith
allowed_at-min max_requests window_ms start count (now ∷ later) b h =
    elim (Bool-cases (leb ((start + window_ms) % 2 ^ 64) now)) [
      | inl over ↦ absurd (ground (arith, over, b, h.0))
      | inr open_yet ↦ elim (Bool-cases (ltb count max_requests)) [
        | inl more ↦
            let counted = allowed_at-min max_requests window_ms start (count + 1) later b h.1 in
            let below : count < max_requests = ground (arith, more) in
            rw (open_yet, more) (omega (arith, counted, below))
        | inr none_left ↦
            let counted = allowed_at-min max_requests window_ms start count later b h.1 in
            let full : max_requests ≤ count = ground (arith, none_left) in
            rw (open_yet, none_left) (omega (arith, counted, full))
      ]
    ]

ltb-not_leb : (a b : ℕ) → ltb a b ≡ true → leb b a ≡ false
ltb-not_leb a b h = ground arith

not_ltb-leb : (a b : ℕ) → ltb a b ≡ false → leb b a ≡ true
not_ltb-leb a b h = ground arith

-- What the answer to a peer is, by whether it is within its rate.
abbrev pub answer : Bool → Result SecurityError (Unit {0})
answer true = ok tt
answer false = err SecurityError.peer_rate_limited

-- The limiter of addresses with the limits and the entries of the peers.
abbrev pub limiter_of : P2pDefense → RateLimiter
limiter_of d = record {
  max_requests = d.max_msgs_per_window;
  window_ms = d.window_ms;
  counters = d.peer_rates;
}

-- A message that is not too large is judged and counted as the limiter of addresses would.
pub validate_message-allow :
    (d : P2pDefense) (peer size now : ℕ)
    → size ≤ d.max_message_size
    → let (result, after) = validate_message d peer size now in
      let (allowed, limiter) = allow (limiter_of d) peer now in
      (result ≡ answer allowed) × (after.peer_rates ≡ limiter.counters)
unfolding validate_message allow count_request
validate_message-allow d peer size now h =
    elim (Bool-cases (leb ((entry.1 + d.window_ms) % 2 ^ 64) now)) [
      | inl over ↦ rw (validate_message, count_request, small, over) (refl, refl)
      | inr open_yet ↦ elim (Bool-cases (ltb entry.0 d.max_msgs_per_window)) [
        | inl few ↦
            rw (validate_message, count_request, small, open_yet, few, ltb-not_leb _ _ few)
              (refl, refl)
        | inr many ↦
            rw (validate_message, count_request, small, open_yet, many, not_ltb-leb _ _ many)
              (refl, refl)
      ]
    ]
  where
    entry : ℕ × ℕ
    entry = entry_or (0, now) (lookup peer d.peer_rates)

    small : ltb d.max_message_size size ≡ false
    small = ground (arith, h)
