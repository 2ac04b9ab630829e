-- ===== src/Prelude/Sums.antt =====
-- Sums over lists of numbers, and how they move when the summand changes at one place.
use Prim.Native.Nat.{ℕ, ◌+◌, ◌*◌}
use mathlib.Core.Path.{◌≡◌, refl, sym, subst}
use mathlib.Core.Logic.{◌≢◌, inl, inr}
use mathlib.Core.List.{List, [], ◌∷◌}
use native.Mathlib.Omega.{arith}
use call_node.Prelude.Tests.{◌==◌, ==_iff, if◌then◌else◌, Bool-cases}

abbrev pub sum_of : (ℕ → ℕ) → List ℕ → ℕ
sum_of f [] = 0
sum_of f (v ∷ vs) = f v + sum_of f vs

-- How often a number is listed.
abbrev pub times : ℕ → List ℕ → ℕ
times v [] = 0
times v (w ∷ ws) = if w == v then 1 + times v ws else times v ws

pub sum_of_same : (f g : ℕ → ℕ) (vs : List ℕ) → ((w : ℕ) → g w ≡ f w) → sum_of g vs ≡ sum_of f vs
sum_of_same f g [] h = refl
sum_of_same f g (v ∷ vs) h = omega (arith, h v, sum_of_same f g vs h)

pub sum_of_raised :
    (f g : ℕ → ℕ) (v d : ℕ) (vs : List ℕ)
    → ((w : ℕ) → w ≢ v → g w ≡ f w)
    → g v ≡ f v + d
    → sum_of g vs ≡ sum_of f vs + times v vs * d
sum_of_raised f g v d [] h e = omega arith
sum_of_raised f g v d (w ∷ ws) h e = elim (Bool-cases (w == v)) [
  | inl same ↦
      let here : g w ≡ f w + d = subst (λ x. g x ≡ f x + d) (sym ((==_iff w v).0 same)) e in
      rw same (ground (arith, here, sum_of_raised f g v d ws h e))
  | inr differ ↦ rw differ (ground (arith, h w (ground arith), sum_of_raised f g v d ws h e))
]
