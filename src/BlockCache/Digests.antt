-- ===== src/BlockCache/Digests.antt =====
-- Lists of digests in which each stands once.
use call_node.Prelude.{
  ℕ, ◌+◌, ◌≡◌, refl, subst, true, false, List, [], ◌∷◌, ◌++◌, arith, ◌==◌, length, nat_key, member,
  All, Bool-cases, inl, inr, ==_iff,
}
use mathlib.Core.Bool.{}
use call_node.BlockCache.Ops.{retain_other}

-- The digest does not stand in the list.
abbrev pub IsAbsent : ℕ → List ℕ → Type 0
IsAbsent d xs = All (λ x. (x == d) ≡ false) xs

abbrev pub HasDistinctDigests : List ℕ → Type 0
HasDistinctDigests [] = Unit
HasDistinctDigests (x ∷ xs) = IsAbsent x xs × HasDistinctDigests xs

pub distinct-append :
    (d : ℕ) (xs : List ℕ)
    → All (λ y. (y == d) ≡ false) xs
    → HasDistinctDigests xs
    → HasDistinctDigests (xs ++ d ∷ [])
distinct-append d [] a h = (tt, tt)
distinct-append d (x ∷ xs) a h = (grow xs h.0, distinct-append d xs a.1 h.1)
  where
    grow : (ys : List ℕ) → IsAbsent x ys → IsAbsent x (ys ++ d ∷ [])
    grow [] k = (ground (arith, a.0), tt)
    grow (y ∷ ys) k = (k.0, grow ys k.1)

pub member_last : (d k : ℕ) (xs : List ℕ) → (k == d) ≡ true → member d (xs ++ k ∷ []) ≡ true
member_last d k [] h = rw h refl
member_last d k (x ∷ xs) h = ground (arith, member_last d k xs h)

pub member_front : (d k : ℕ) (xs : List ℕ) → member d xs ≡ true → member d (xs ++ k ∷ []) ≡ true
member_front d k [] h = absurd (ground (arith, h))
member_front d k (x ∷ xs) h = ground (arith, h, member_front d k xs)

pub member_retained :
    (d i : ℕ) (xs : List ℕ)
    → (d == i) ≡ false
    → member i xs ≡ true
    → member i (retain_other d xs) ≡ true
member_retained d i [] n h = h
member_retained d i (x ∷ xs) n h = elim (Bool-cases (x == d)) [
  | inl same ↦ ground (arith, same, n, h, member_retained d i xs n)
  | inr differ ↦ ground (arith, differ, h, member_retained d i xs n)
]

pub length-retain_other_absent :
    (d : ℕ) (xs : List ℕ) → IsAbsent d xs → length (retain_other d xs) ≡ length xs
length-retain_other_absent d [] h = refl
length-retain_other_absent d (x ∷ xs) h = ground (arith, length-retain_other_absent d xs h.1)

pub length-retain_other :
    (d : ℕ) (xs : List ℕ)
    → HasDistinctDigests xs
    → member d xs ≡ true
    → length xs ≡ length (retain_other d xs) + 1
length-retain_other d [] h m = absurd (ground (arith, m))
length-retain_other d (x ∷ xs) h m = elim (Bool-cases (x == d)) [
  | inl same ↦ rw same (
      omega (
        arith,
        length-retain_other_absent d xs (subst (λ i. IsAbsent i xs) ((==_iff x d).0 same) h.0),
      ))
  | inr differ ↦ rw differ (omega (arith, length-retain_other d xs h.1 (ground (arith, m, differ))))
]

pub IsAbsent-retain_other : (x d : ℕ) (xs : List ℕ) → IsAbsent x xs → IsAbsent x (retain_other d xs)
IsAbsent-retain_other x d [] h = tt
IsAbsent-retain_other x d (y ∷ ys) h = elim (Bool-cases (y == d)) [
  | inl same ↦ rw same (IsAbsent-retain_other x d ys h.1)
  | inr differ ↦ rw differ (h.0, IsAbsent-retain_other x d ys h.1)
]

pub HasDistinctDigests-retain_other :
    (d : ℕ) (xs : List ℕ) → HasDistinctDigests xs → HasDistinctDigests (retain_other d xs)
HasDistinctDigests-retain_other d [] h = tt
HasDistinctDigests-retain_other d (x ∷ xs) h = elim (Bool-cases (x == d)) [
  | inl same ↦ rw same (HasDistinctDigests-retain_other d xs h.1)
  | inr differ ↦
      rw differ (IsAbsent-retain_other x d xs h.0, HasDistinctDigests-retain_other d xs h.1)
]
