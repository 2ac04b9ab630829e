-- ===== src/Oracle/Calls.antt =====
-- The calls of the tracker of crates/oracle/src/tracker.rs, in any order and with any validators.
use call_node.Prelude.{
  ℕ, ◌+◌, ◌%◌, ◌^◌, ◌<◌, ◌≡◌, refl, sym, subst, ◌∙◌, Bool, true, false, not, ◌||◌, List, [], ◌∷◌,
  Option, none, some, arith, length, All, leb, Bool-cases, Option-cases, inl, inr, ◌⊎◌, Key, Dict,
  lookup, insert, remove, member, include, nat_key, beq_refl, err,
}
use call_node.Oracle.Types.{
  PricePair, pair_key, OracleSubmission, AggregatedPrice, OracleConfig, OracleError, OracleTracker,
  new_tracker, OracleValidatorInfo, oracle_quorum, max_pending_per_pair,
}
use OracleError.{validator_not_found, validator_disabled}
use call_node.Oracle.Ops.{
  Validators, count_or_zero, aggregate_submissions, strike, penalise, penalise_all, record_quorum,
  accepted, unless_refused, check_found, count_submission, active_count, or_default, clear_tracking,
  clear_pending, submission_error, cap_pending, accept_submission, submit_price,
}
use call_node.Oracle.Median.{IsAggregate, aggregate_submissions-IsAggregate}

-- A property of the values of a map.
module _ {K V : Type 0} ⦃e : Key K⦄ (P : V → Type 0) where
  All-insert_value :
      (k : K) (v : V) (d : Dict K V) → P v → All (λ x. P x.1) d → All (λ x. P x.1) (insert k v d)
  All-insert_value k v [] p h = (p, tt)
  All-insert_value k v ((j, w) ∷ d) p h = elim (Bool-cases (e.beq j k)) [
    | inl same ↦ rw same (p, h.1)
    | inr differ ↦ rw differ (h.0, All-insert_value k v d p h.1)
  ]

  All-remove_inserted :
      (k : K) (v : V) (d : Dict K V)
      → All (λ x. P x.1) d
      → All (λ x. P x.1) (remove k (insert k v d))
  All-remove_inserted k v [] h = rw (beq_refl k) tt
  All-remove_inserted k v ((j, w) ∷ d) h = elim (Bool-cases (e.beq j k)) [
    | inl same ↦ rw (same, same) h.1
    | inr differ ↦ rw (differ, differ) (h.0, All-remove_inserted k v d h.1)
  ]

length-insert_pos : {V : Type 0} (k : ℕ) (v : V) (d : Dict ℕ V) → 0 < length (insert k v d)
length-insert_pos k v [] = omega arith
length-insert_pos k v ((j, w) ∷ d) = ground arith

-- No pair has as many submissions as the cap.
abbrev pub IsCapped : OracleTracker → Type 0
IsCapped t = All (λ e. length e.1 < max_pending_per_pair) t.pending

abbrev KeepsDisabled : OracleTracker → OracleTracker → Type 0
KeepsDisabled t t' =
    (v : ℕ) → member v t.disabled_validators ≡ true → member v t'.disabled_validators ≡ true

member-include : (v k : ℕ) (s : List ℕ) → member v s ≡ true → member v (include k s) ≡ true
member-include v k s h = ground arith

strike-KeepsDisabled :
    (tolerance vid count : ℕ) (t : OracleTracker) (vs : Validators) (o : Option OracleValidatorInfo)
    → let (t', _) = strike tolerance vid count t vs o in
      (t'.pending ≡ t.pending) × KeepsDisabled t t'
strike-KeepsDisabled tolerance vid count t vs none = (refl, λ v h. h)
strike-KeepsDisabled tolerance vid count t vs (some info) =
    elim (Bool-cases (leb tolerance count)) [
      | inl over ↦ rw over (refl, λ v h. member-include v vid t.disabled_validators h)
      | inr under ↦ rw under (refl, λ v h. h)
    ]

penalise-KeepsDisabled :
    (tolerance vid : ℕ) (t : OracleTracker) (vs : Validators)
    → let (t', _) = penalise tolerance vid t vs in (t'.pending ≡ t.pending) × KeepsDisabled t t'
unfolding penalise
penalise-KeepsDisabled tolerance vid t vs =
    let count = (count_or_zero (lookup vid t.outlier_counts) + 1) % 2 ^ 32 in
    strike-KeepsDisabled tolerance vid count
      (record t { outlier_counts = insert vid count t.outlier_counts }) vs (lookup vid vs)

penalise_all-KeepsDisabled :
    (tolerance : ℕ) (vids : List ℕ) (t : OracleTracker) (vs : Validators)
    → let (t', _) = penalise_all tolerance vids t vs in
      (t'.pending ≡ t.pending) × KeepsDisabled t t'
penalise_all-KeepsDisabled tolerance [] t vs = (refl, λ v h. h)
penalise_all-KeepsDisabled tolerance (vid ∷ vids) t vs =
    let (t₁, vs₁) = penalise tolerance vid t vs in
    let (p, k) = penalise-KeepsDisabled tolerance vid t vs in
    let (q, l) = penalise_all-KeepsDisabled tolerance vids t₁ vs₁ in (q ∙ p, λ v h. l v (k v h))

aggregate_submissions-some :
    (ss : List OracleSubmission) (config : OracleConfig)
    → 0 < length ss
    → (r : AggregatedPrice × List ℕ × List ℕ) × (aggregate_submissions ss config ≡ some r)
aggregate_submissions-some [] config h = absurd (omega (arith, h))
aggregate_submissions-some (s ∷ ss) config h =
    elim (Option-cases (aggregate_submissions (s ∷ ss) config)) [
      | inl e ↦
          absurd (subst (IsAggregate (s ∷ ss)) e (aggregate_submissions-IsAggregate s ss config))
      | inr found ↦ found
    ]

-- The tracker left by an operation that does not end the program: it keeps the cap, and whoever is
-- disabled stays so.
abbrev pub IsNext : {R : Type 0} → OracleTracker → Option (R × OracleTracker × Validators) → Type 0
IsNext t none = ⊥
IsNext t (some (_, t', _)) = (IsCapped t → IsCapped t') × KeepsDisabled t t'

record_quorum-IsNext :
    (tolerance : ℕ) (t t₁ : OracleTracker) (vs : Validators)
    (o : Option (AggregatedPrice × List ℕ × List ℕ)) (r : AggregatedPrice × List ℕ × List ℕ)
    → o ≡ some r
    → (IsCapped t → IsCapped t₁)
    → KeepsDisabled t t₁
    → IsNext t (record_quorum tolerance t₁ vs o)
record_quorum-IsNext tolerance t t₁ vs o (aggregated, outliers, contributors) e capped kept =
    let recorded = record t₁ { last_outliers = outliers; current_contributors = contributors } in
    let (p, k) = penalise_all-KeepsDisabled tolerance outliers recorded vs in
    rw e (
      (λ c. subst (All (λ e. length e.1 < max_pending_per_pair)) (sym p) (capped c)),
      (λ v h. k v (kept v h)),
    )

cap_pending-IsNext :
    (t : OracleTracker) (p : PricePair) (d : Dict ℕ OracleSubmission) (vs : Validators)
    → IsNext {R = Option AggregatedPrice} t
        (some (none, cap_pending p d (record t { pending = insert p d t.pending }), vs))
unfolding cap_pending
cap_pending-IsNext t p d vs = elim (Bool-cases (leb max_pending_per_pair (length d))) [
  | inl full ↦ rw full (
    (λ c. All-remove_inserted (λ e. length e < max_pending_per_pair) p d t.pending c),
    (λ v h. h),
  )
  | inr fewer ↦ rw fewer (
    (λ c. All-insert_value (λ e. length e < max_pending_per_pair) p d t.pending (ground arith) c),
    (λ v h. h),
  )
]

module _ (in_order : Dict ℕ OracleSubmission → List OracleSubmission)
    (in_order_length : (d : Dict ℕ OracleSubmission) → length (in_order d) ≡ length d) where
  accept_submission-IsNext :
      (t : OracleTracker) (config : OracleConfig) (s : OracleSubmission) (vs : Validators)
      → IsNext t (accept_submission in_order t config s vs)
  unfolding accept_submission
  accept_submission-IsNext t config s vs =
      let earlier = or_default (lookup s.pair t.pending) in
      let d = insert s.validator_id s earlier in
      let counted = count_submission s.validator_id s.block_number vs in
      let (r, found) =
        aggregate_submissions-some (in_order d) config
          (omega (arith, length-insert_pos s.validator_id s earlier, in_order_length d)) in
      elim (Bool-cases (leb (oracle_quorum (active_count counted)) (length d))) [
        | inl quorum ↦ rw quorum (
            record_quorum-IsNext config.outlier_tolerance t
              (record t { pending = remove s.pair (insert s.pair d t.pending) }) counted
              (aggregate_submissions (in_order d) config) r found
              (λ c. All-remove_inserted (λ e. length e < max_pending_per_pair) s.pair d t.pending c)
              (λ v h. h))
        | inr fewer ↦ rw fewer (cap_pending-IsNext t s.pair d counted)
      ]

  accepted-IsNext :
      (t : OracleTracker) (o : Option (Option AggregatedPrice × OracleTracker × Validators))
      → IsNext t o
      → IsNext t (accepted o)
  accepted-IsNext t none h = h
  accepted-IsNext t (some r) h = h

  unless_refused-IsNext :
      (t : OracleTracker) (vs : Validators) (e : Option OracleError)
      (o : Option (Option AggregatedPrice × OracleTracker × Validators))
      → IsNext t o
      → IsNext t (unless_refused t vs e o)
  unless_refused-IsNext t vs none o h = accepted-IsNext t o h
  unless_refused-IsNext t vs (some e) o h = (λ c. c, λ v k. k)

pub data Call : Type 0 where
  submit_call : OracleSubmission → OracleConfig → Validators → Call
  clear_tracking_call clear_pending_call : Call

abbrev pub tracker_of :
    {R : Type 0} → Option (R × OracleTracker × Validators) → Option OracleTracker
tracker_of none = none
tracker_of (some (_, t, _)) = some t

abbrev pub and_then :
    Option OracleTracker → (OracleTracker → Option OracleTracker) → Option OracleTracker
and_then none f = none
and_then (some t) f = f t

module _ (ed25519_verify : ℕ → ℕ → List ℕ → Bool)
    (in_order : Dict ℕ OracleSubmission → List OracleSubmission) where
  unfoldable pub after_call : Call → OracleTracker → Option OracleTracker
  after_call (Call.submit_call s config vs) t =
      tracker_of (submit_price ed25519_verify in_order t s config vs)
  after_call Call.clear_tracking_call t = some (clear_tracking t)
  after_call Call.clear_pending_call t = some (clear_pending t)

  -- The tracker after the calls, unless one of them ends the program.
  unfoldable pub after_calls : List Call → OracleTracker → Option OracleTracker
  after_calls [] t = some t
  after_calls (c ∷ cs) t = and_then (after_call c t) (after_calls cs)

abbrev IsAfter : OracleTracker → Option OracleTracker → Type 0
IsAfter t none = ⊥
IsAfter t (some t') = (IsCapped t → IsCapped t') × KeepsDisabled t t'

tracker_of-IsAfter :
    {R : Type 0} (t : OracleTracker) (o : Option (R × OracleTracker × Validators))
    → IsNext t o
    → IsAfter t (tracker_of o)
tracker_of-IsAfter t none h = h
tracker_of-IsAfter t (some r) h = h

follow_both :
    (t t₁ : OracleTracker) (o : Option OracleTracker)
    → (IsCapped t → IsCapped t₁) × KeepsDisabled t t₁
    → IsAfter t₁ o
    → IsAfter t o
follow_both t t₁ none h k = k
follow_both t t₁ (some t₂) h k = ((λ c. k.0 (h.0 c)), λ v d. k.1 v (h.1 v d))

and_then-IsAfter :
    (t : OracleTracker) (o : Option OracleTracker) (f : OracleTracker → Option OracleTracker)
    → IsAfter t o
    → ((t₁ : OracleTracker) → IsAfter t₁ (f t₁))
    → IsAfter t (and_then o f)
and_then-IsAfter t none f h k = h
and_then-IsAfter t (some t₁) f h k = follow_both t t₁ (f t₁) h (k t₁)

after_calls-some :
    (t : OracleTracker) (o : Option OracleTracker)
    → IsAfter t o
    → (t' : OracleTracker) × (o ≡ some t') × (IsCapped t → IsCapped t') × KeepsDisabled t t'
after_calls-some t none h = absurd h
after_calls-some t (some t') h = (t', refl, h.0, h.1)

or_true : (b : Bool) → b || true ≡ true
or_true true = refl
or_true false = refl

submit_price_disabled :
    (ed25519_verify : ℕ → ℕ → List ℕ → Bool)
    (in_order : Dict ℕ OracleSubmission → List OracleSubmission) (t : OracleTracker)
    (s : OracleSubmission) (config : OracleConfig) (vs : Validators)
    → member s.validator_id t.disabled_validators ≡ true
    → (e : OracleError) × (submit_price ed25519_verify in_order t s config vs ≡ some (err e, t, vs))
      × ((e ≡ validator_not_found) ⊎ (e ≡ validator_disabled))
unfolding submit_price submission_error
submit_price_disabled ed25519_verify in_order t s config vs h =
    elim (Option-cases (lookup s.validator_id vs)) [
      | inl absent ↦ (validator_not_found, rw absent refl, inl refl)
      | inr (v, here) ↦ (validator_disabled, rw (here, h, or_true (not v.is_active)) refl, inr refl)
    ]

module _ (ed25519_verify : ℕ → ℕ → List ℕ → Bool)
    (in_order : Dict ℕ OracleSubmission → List OracleSubmission)
    (in_order_length : (d : Dict ℕ OracleSubmission) → length (in_order d) ≡ length d) where
  after_call-IsAfter :
      (c : Call) (t : OracleTracker) → IsAfter t (after_call ed25519_verify in_order c t)
  unfolding after_call submit_price clear_tracking clear_pending
  after_call-IsAfter (Call.submit_call s config vs) t =
      tracker_of-IsAfter t (submit_price ed25519_verify in_order t s config vs) (
        unless_refused-IsNext in_order in_order_length t vs
          (check_found ed25519_verify t config s (lookup s.validator_id vs))
          (accept_submission in_order t config s vs)
          (accept_submission-IsNext in_order in_order_length t config s vs))
  after_call-IsAfter Call.clear_tracking_call t = ((λ c. c), λ v h. h)
  after_call-IsAfter Call.clear_pending_call t = ((λ c. tt), λ v h. h)

  after_calls-IsAfter :
      (cs : List Call) (t : OracleTracker) → IsAfter t (after_calls ed25519_verify in_order cs t)
  unfolding after_calls
  after_calls-IsAfter [] t = ((λ c. c), λ v h. h)
  after_calls-IsAfter (c ∷ cs) t =
      and_then-IsAfter t (after_call ed25519_verify in_order c t)
        (after_calls ed25519_verify in_order cs) (after_call-IsAfter c t) (after_calls-IsAfter cs)

  -- Where the iteration of a map gives as many submissions as it holds, no calls of a new tracker
  -- end the program, and no pair ever has as many submissions waiting as the cap.
  pub after_calls-IsCapped :
      (cs : List Call)
      → (t : OracleTracker) × (after_calls ed25519_verify in_order cs new_tracker ≡ some t)
        × IsCapped t
  after_calls-IsCapped cs =
      let (t, e, capped, _) = after_calls-some new_tracker _ (after_calls-IsAfter cs new_tracker) in
      (t, e, capped tt)

  -- Where the iteration of a map gives as many submissions as it holds, a validator that is disabled
  -- is refused after any calls, whatever the validators are then, and the tracker stays as it was.
  pub disabled_is_refused :
      (cs : List Call) (t : OracleTracker) (s : OracleSubmission) (config : OracleConfig)
      (vs : Validators)
      → member s.validator_id t.disabled_validators ≡ true
      → (t' : OracleTracker) × (e : OracleError) × (after_calls ed25519_verify in_order cs t
          ≡ some t')
        × (submit_price ed25519_verify in_order t' s config vs ≡ some (err e, t', vs))
        × ((e ≡ validator_not_found) ⊎ (e ≡ validator_disabled))
  disabled_is_refused cs t s config vs h =
      let (t', after, _, kept) = after_calls-some t _ (after_calls-IsAfter cs t) in
      let (e, refused, cause) =
        submit_price_disabled ed25519_verify in_order t' s config vs (kept s.validator_id h) in
      (t', e, after, refused, cause)
