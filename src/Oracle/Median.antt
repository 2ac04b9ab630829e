-- ===== src/Oracle/Median.antt =====
-- The aggregation of prices in crates/oracle/src/tracker.rs: the median and the outliers.
use call_node.Prelude.{
  ℕ, zero, suc, ◌/◌, ◌≤◌, ◌<◌, ◌≡◌, refl, sym, ap, subst, ◌∙◌, false, List, [], ◌∷◌, ◌++◌, map,
  Option, none, some, arith, length, get_elem?, All,
}
use mathlib.Core.List.{Perm}
use call_node.Proposer.Ops.{}
use call_node.Proposer.Sorting.{IsSortedBy, sort_from-IsSortedBy, sort-Perm, length-sort_from}
use call_node.Oracle.Types.{OracleSubmission, AggregatedPrice, OracleConfig}
use call_node.Oracle.Ops.{
  price_of, sorted_prices, deviation_bps, is_outlier, outliers_of, summarise, aggregate_submissions,
}

abbrev pub priced : List OracleSubmission → List (ℕ × ℕ)
priced = map (λ s. (OracleSubmission.validator_id s, OracleSubmission.price s))

-- A list around its element at a place.
around :
    {A : Type 0} (xs : List A) (i : ℕ)
    → i < length xs
    → (below : List A) × (x : A) × (above : List A) × (xs ≡ below ++ x ∷ above)
      × (length below ≡ i)
      × (get_elem? xs i ≡ some x)
around [] i h = absurd (omega (arith, h))
around (x ∷ xs) zero h = ([], x, xs, refl, refl, refl)
around (x ∷ xs) (suc i) h =
    let (below, y, above, e, n, found) = around xs i (omega (arith, h)) in
    (x ∷ below, y, above, ap (λ ys. x ∷ ys) e, ap suc n, found)

All-middle :
    {A : Type 0} (P : A → Type 0) (below : List A) (x : A) (above : List A)
    → All P (below ++ x ∷ above)
    → P x
All-middle P [] x above h = h.0
All-middle P (b ∷ below) x above h = All-middle P below x above h.1

-- A sorted list around one of its elements.
sorted_around :
    (below : List (ℕ × ℕ)) (x : ℕ × ℕ) (above : List (ℕ × ℕ))
    → IsSortedBy price_of (below ++ x ∷ above)
    → All (λ e. e.1 ≤ x.1) below × All (λ e. x.1 ≤ e.1) above
sorted_around [] x above s = (tt, s.0)
sorted_around (b ∷ below) x above s =
    let rest = sorted_around below x above s.1 in
    ((All-middle (λ y. b.1 ≤ y.1) below x above s.0, rest.0), rest.1)

length-map_priced : (ss : List OracleSubmission) → length (priced ss) ≡ length ss
length-map_priced [] = refl
length-map_priced (s ∷ ss) = ap suc (length-map_priced ss)

length-sorted_prices : (ss : List OracleSubmission) → length (sorted_prices ss) ≡ length ss
unfolding sorted_prices
length-sorted_prices ss =
    omega (arith, length-sort_from price_of [] (priced ss), length-map_priced ss)

median_is_no_outlier : (bps m : ℕ) → is_outlier bps m m ≡ false
unfolding is_outlier deviation_bps
median_is_no_outlier bps m = ground arith

length-outliers_of : (bps m : ℕ) (es : List (ℕ × ℕ)) → length (outliers_of bps m es) ≤ length es
length-outliers_of bps m [] = omega arith
length-outliers_of bps m (e ∷ es) = ground (arith, length-outliers_of bps m es)

length-outliers_of_around :
    (bps m vid : ℕ) (below above : List (ℕ × ℕ))
    → length (outliers_of bps m (below ++ (vid, m) ∷ above)) < length (below ++ (vid, m) ∷ above)
length-outliers_of_around bps m vid [] above =
    rw (median_is_no_outlier bps m) (omega (arith, length-outliers_of bps m above))
length-outliers_of_around bps m vid (e ∷ below) above =
    ground (arith, length-outliers_of_around bps m vid below above)

-- A median: half of the prices, rounded down, are given before it and none of them is greater; none
-- of the others is smaller.
abbrev pub IsMedian : ℕ → List (ℕ × ℕ) → Type 0
IsMedian m prices =
    (below : List (ℕ × ℕ)) × (vid : ℕ) × (above : List (ℕ × ℕ)) × Perm (below ++ (vid, m) ∷ above)
      prices
    × (length below ≡ length prices / 2)
    × All (λ e. e.1 ≤ m) below
    × All (λ e. m ≤ e.1) above

abbrev pub IsAggregate : List OracleSubmission → Option (AggregatedPrice × List ℕ × List ℕ) → Type 0
IsAggregate ss none = ⊥
IsAggregate ss (some (aggregated, outliers, contributors)) =
    IsMedian aggregated.median_price (priced ss)
    × (aggregated.submission_count ≡ length ss)
    × (aggregated.outlier_count ≡ length outliers)
    × (aggregated.outlier_count < aggregated.submission_count)

summarise-IsAggregate :
    (ss : List OracleSubmission) (config : OracleConfig) (prices below : List (ℕ × ℕ)) (x : ℕ × ℕ)
    (above : List (ℕ × ℕ))
    → prices ≡ below ++ x ∷ above
    → length below ≡ length prices / 2
    → IsSortedBy price_of prices
    → Perm prices (priced ss)
    → length prices ≡ length ss
    → IsAggregate ss (summarise ss config prices (some x))
summarise-IsAggregate ss config prices below x above e half sorted perm n =
    let (low, high) = sorted_around below x above (subst (IsSortedBy price_of) e sorted) in
    let bps = config.outlier_threshold_bps in
    (
      (
        below,
        x.0,
        above,
        subst (λ ps. Perm ps (priced ss)) e perm,
        half ∙ ap (λ k. k / 2) (n ∙ sym (length-map_priced ss)),
        low,
        high,
      ),
      refl,
      refl,
      subst (λ k. length (outliers_of bps x.1 prices) < k) n
          (subst (λ ps. length (outliers_of bps x.1 ps) < length ps) (sym e)
            (length-outliers_of_around bps x.1 x.0 below above)),
    )

-- The aggregation of one submission or more gives a median of their prices, and not all of them are
-- outliers.
pub aggregate_submissions-IsAggregate :
    (s : OracleSubmission) (ss : List OracleSubmission) (config : OracleConfig)
    → IsAggregate (s ∷ ss) (aggregate_submissions (s ∷ ss) config)
unfolding aggregate_submissions sorted_prices
aggregate_submissions-IsAggregate s ss config =
    let n = length-sorted_prices (s ∷ ss) in
    let (below, x, above, e, half, found) =
      around (sorted_prices (s ∷ ss)) (length (sorted_prices (s ∷ ss)) / 2) (omega (arith, n)) in
    subst (λ o. IsAggregate (s ∷ ss) (summarise (s ∷ ss) config (sorted_prices (s ∷ ss)) o))
      (sym found)
      (summarise-IsAggregate (s ∷ ss) config (sorted_prices (s ∷ ss)) below x above e half
        (sort_from-IsSortedBy price_of [] (priced (s ∷ ss)) tt)
        (sort-Perm price_of (priced (s ∷ ss))) n)
