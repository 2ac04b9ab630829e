-- ===== src/Security/Submission.antt =====
-- Submissions to the defence of crates/protocol/src/security.rs.
use call_node.Prelude.{
  ℕ, zero, suc, take, ◌/◌, ◌≡◌, ◌≢◌, refl, ap, ◌∙◌, true, false, List, [], ◌∷◌, arith, ltb, leb,
  ◌==◌, length, Bool-cases, inl, inr, ◌⊎◌, lookup, member, include, exclude, nat_key, err, ==_refl,
}
use mathlib.Core.Bool.{}
use mathlib.Core.Path.{}
use call_node.Security.Ops.{
  SecurityError, ReplayProtector, MempoolDefense, count_or_zero, allow, exclude_all, without,
  check_and_record, validate_tx_submission,
}
use SecurityError.{rate_limited, replay_detected}

member-exclude :
    (i j : ℕ) (s : List ℕ) → (j == i) ≡ false → member i s ≡ true → member i (exclude j s) ≡ true
member-exclude i j [] n h = h
member-exclude i j (x ∷ xs) n h = ground (arith, member-exclude i j xs n)

member-exclude_all :
    (h : ℕ) (hs s : List ℕ)
    → member h hs ≡ false
    → member h s ≡ true
    → member h (exclude_all hs s) ≡ true
member-exclude_all h [] s n m = m
member-exclude_all h (x ∷ xs) s n m =
    member-exclude_all h xs (exclude x s) (ground (arith, n))
      (member-exclude h x s (ground (arith, n)) m)

-- The hashes that go are not the one just recorded.
member-take-without : (h n : ℕ) (hs : List ℕ) → member h (take n (without h hs)) ≡ false
member-take-without h zero hs = refl
member-take-without h (suc n) [] = refl
member-take-without h (suc n) (x ∷ xs) = elim (Bool-cases (x == h)) [
  | inl same ↦ rw same (member-take-without h (suc n) xs)
  | inr other ↦ rw (other, other) (member-take-without h n xs)
]

module _ (in_order : List ℕ → List ℕ) where
  member-check_and_record :
      (p : ReplayProtector) (hash : ℕ)
      → member hash (check_and_record in_order p hash).1.seen_hashes ≡ true
  unfolding check_and_record
  member-check_and_record p hash = elim (Bool-cases (ltb p.max_seen (length seen))) [
    | inl over ↦ rw over (
        member-exclude_all hash (take (p.max_seen / 4) (without hash (in_order seen))) seen
          (member-take-without hash (p.max_seen / 4) (in_order seen)) is_in)
    | inr fits ↦ rw fits is_in
  ]
    where
      seen : List ℕ
      seen = include hash p.seen_hashes

      is_in : member hash seen ≡ true
      is_in = ground (arith, ==_refl hash)

  check_and_record-seen :
      (p : ReplayProtector) (hash : ℕ)
      → member hash p.seen_hashes ≡ true
      → (check_and_record in_order p hash).0 ≡ false
  unfolding check_and_record
  check_and_record-seen p hash m = ground (arith, m)

  seen_is_refused :
      (d : MempoolDefense) (sender hash now : ℕ)
      → member hash d.replay_protector.seen_hashes ≡ true
      → let (result, _) = validate_tx_submission in_order d sender hash now in
        (result ≡ err rate_limited) ⊎ (result ≡ err replay_detected)
  unfolding validate_tx_submission
  seen_is_refused d sender hash now m = elim (Bool-cases (allow d.rate_limiter sender now).0) [
    | inl allowed ↦
        inr (
          rw (validate_tx_submission, allowed, check_and_record-seen d.replay_protector hash m)
            refl)
    | inr limited ↦ inl (rw (validate_tx_submission, limited) refl)
  ]

  records_unless_limited :
      (d : MempoolDefense) (sender hash now : ℕ)
      → let (result, after) = validate_tx_submission in_order d sender hash now in
        (result ≡ err rate_limited)
        ⊎ (after.replay_protector ≡ (check_and_record in_order d.replay_protector hash).1)
  unfolding validate_tx_submission
  records_unless_limited d sender hash now = elim (Bool-cases (allow d.rate_limiter sender now).0) [
    | inr limited ↦ inl (rw (validate_tx_submission, limited) refl)
    | inl allowed ↦ elim (Bool-cases (check_and_record in_order d.replay_protector hash).0) [
      | inr again ↦ inr (rw (validate_tx_submission, allowed, again) refl)
      | inl first ↦
          elim (Bool-cases
            (leb d.max_txs_per_address (count_or_zero (lookup sender d.tx_counts)))) [
              | inl full ↦ inr (rw (validate_tx_submission, allowed, first, full) refl)
              | inr room ↦ inr (rw (validate_tx_submission, allowed, first, room) refl)
            ]
    ]
  ]

  -- A submission that was not refused for its rate is refused the next time, also when it was
  -- refused because its sender had too many, and when the set was too large and hashes had to go.
  pub validate_tx_submission_again :
      (d : MempoolDefense) (sender sender' hash now now' : ℕ)
      → (validate_tx_submission in_order d sender hash now).0 ≢ err rate_limited
      → let (_, after) = validate_tx_submission in_order d sender hash now in
        let (result, _) = validate_tx_submission in_order after sender' hash now' in
        (result ≡ err rate_limited) ⊎ (result ≡ err replay_detected)
  validate_tx_submission_again d sender sender' hash now now' other =
      elim (records_unless_limited d sender hash now) [
        | inl limited ↦ absurd (other limited)
        | inr recorded ↦
            seen_is_refused (validate_tx_submission in_order d sender hash now).1 sender' hash now'
              (ap (λ (p : ReplayProtector). member hash p.seen_hashes) recorded
                ∙ member-check_and_record d.replay_protector hash)
      ]
