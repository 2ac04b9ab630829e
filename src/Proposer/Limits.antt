-- ===== src/Proposer/Limits.antt =====
-- The limits that crates/consensus/src/proposer.rs computes from the parameters.
use call_node.Prelude.{ℕ, ◌+◌, ◌-◌, ◌*◌, ◌/◌, ◌^◌, ◌≤◌, ◌<◌, ◌≡◌, refl, some, arith, ==_ne}
use native.Mathlib.Nat.{div-add-mod', mod-lt, mod-eq_of_lt}
use call_node.Proposer.Ops.{ConsensusParams, safety_floor}

-- A quotient rounded up.
rounded_up : (n d : ℕ) → 0 < d → (n ≤ (n + d - 1) / d * d) × ((n + d - 1) / d * d < n + d)
rounded_up n d h = (
  omega (arith, h, div-add-mod' (n + d - 1) d, mod-lt (n + d - 1) h),
  omega (arith, h, div-add-mod' (n + d - 1) d, mod-lt (n + d - 1) h),
)

-- The safety floor is the least number of validators that is the size of the subset times the
-- ratio, where the denominator is not zero and the products fit.
pub safety_floor_least :
    (p : ConsensusParams)
    → 0 < p.safety_ratio_den
    → p.subset_size * p.safety_ratio_num + p.safety_ratio_den < 2 ^ 64
    → (f : ℕ) × ((safety_floor p ≡ some f)
        × ((p.subset_size * p.safety_ratio_num ≤ f * p.safety_ratio_den)
            × (f * p.safety_ratio_den < p.subset_size * p.safety_ratio_num + p.safety_ratio_den)))
unfolding safety_floor
safety_floor_least p h b = (
  (num + p.safety_ratio_den - 1) / p.safety_ratio_den,
  (
    rw
        (
          ==_ne p.safety_ratio_den 0 (λ e. omega (arith, e, h)),
          mod-eq_of_lt {n = num} {m = 2 ^ 64} (omega (arith, b)),
          mod-eq_of_lt {n = num + p.safety_ratio_den - 1} {m = 2 ^ 64} (omega (arith, b)),
        )
        refl,
    rounded_up num p.safety_ratio_den h,
  ),
)
  where
    num : ℕ
    num = p.subset_size * p.safety_ratio_num
