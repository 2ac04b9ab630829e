-- ===== src/Oracle/Rewards.antt =====
-- The rewards of the contributors in crates/oracle/src/tracker.rs.
use call_node.Prelude.{
  ℕ, suc, ◌+◌, ◌-◌, ◌*◌, ◌/◌, ◌%◌, ◌≤◌, ◌<◌, ◌∙◌, ◌≡◌, ◌≢◌, refl, ap, min, List, [], ◌∷◌, arith,
  ==_ne, length, All,
}
use native.Mathlib.Omega.{div_any}
use native.Mathlib.Nat.{mod-lt}
use call_node.Oracle.Types.{OracleTracker}
use call_node.Oracle.Ops.{rewards_from, distribute_rewards}

abbrev pub total_rewards : List (ℕ × ℕ) → ℕ
total_rewards [] = 0
total_rewards (r ∷ rs) = r.1 + total_rewards rs

abbrev pub rewarded : List (ℕ × ℕ) → List ℕ
rewarded [] = []
rewarded (r ∷ rs) = r.0 ∷ rewarded rs

total-rewards_from :
    (per remainder i : ℕ) (vids : List ℕ)
    → total_rewards (rewards_from per remainder i vids)
      ≡ length vids * per + min (length vids) (remainder - i)
total-rewards_from per remainder i [] = omega arith
total-rewards_from per remainder i (vid ∷ vids) =
    ground (arith, total-rewards_from per remainder (i + 1) vids)

rewarded-rewards_from :
    (per remainder i : ℕ) (vids : List ℕ) → rewarded (rewards_from per remainder i vids) ≡ vids
rewarded-rewards_from per remainder i [] = refl
rewarded-rewards_from per remainder i (vid ∷ vids) =
    ap (λ vs. vid ∷ vs) (rewarded-rewards_from per remainder (i + 1) vids)

All-rewards_from :
    (per remainder i : ℕ) (vids : List ℕ)
    → All (λ r. (per ≤ r.1) × (r.1 ≤ per + 1)) (rewards_from per remainder i vids)
All-rewards_from per remainder i [] = tt
All-rewards_from per remainder i (vid ∷ vids) =
    ((ground arith, ground arith), All-rewards_from per remainder (i + 1) vids)

whole : (n q r pool : ℕ) → n * q + r ≡ pool → r < n → n * q + min n (r - 0) ≡ pool
whole n q r pool e lt = ground arith

distribute_rewards-rewards_from :
    (t : OracleTracker) (pool vid : ℕ) (vids : List ℕ)
    → t.current_contributors ≡ vid ∷ vids
    → pool ≢ 0
    → distribute_rewards t pool
      ≡ rewards_from (pool / suc (length vids)) (pool % suc (length vids)) 0 (vid ∷ vids)
unfolding distribute_rewards
distribute_rewards-rewards_from t pool vid vids e ne =
    rw (e, ==_ne pool 0 ne, ==_ne (suc (length vids)) 0 (λ h. omega (arith, h))) refl

-- What the contributors are given, for a pool and the number of them.
abbrev pub IsFairShare : ℕ → List ℕ → List (ℕ × ℕ) → Type 0
IsFairShare pool vids rewards =
    (rewarded rewards ≡ vids)
    × (total_rewards rewards ≡ pool)
    × All (λ r. (pool / length vids ≤ r.1) × (r.1 ≤ pool / length vids + 1)) rewards

-- A pool that is not empty is given out whole, to every contributor once and in equal parts up to
-- one unit.
pub distribute_rewards-IsFairShare :
    (t : OracleTracker) (pool vid : ℕ) (vids : List ℕ)
    → t.current_contributors ≡ vid ∷ vids
    → pool ≢ 0
    → IsFairShare pool (vid ∷ vids) (distribute_rewards t pool)
distribute_rewards-IsFairShare t pool vid vids e ne =
    let n : ℕ = suc (length vids) in
    rw (distribute_rewards-rewards_from t pool vid vids e ne) (
      rewarded-rewards_from (pool / n) (pool % n) 0 (vid ∷ vids),
      total-rewards_from (pool / n) (pool % n) 0 (vid ∷ vids)
          ∙ whole n (pool / n) (pool % n) pool (div_any pool n) (mod-lt pool (omega arith)),
      All-rewards_from (pool / n) (pool % n) 0 (vid ∷ vids),
    )
