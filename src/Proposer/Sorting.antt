-- ===== src/Proposer/Sorting.antt =====
-- The stable sort by a number, and the elements that come first in a sorted list.
use call_node.Prelude.{
  ℕ, zero, suc, ◌+◌, ◌≤◌, ◌≡◌, refl, ap, subst, min, List, [], ◌∷◌, ◌++◌, arith, ltb, length, take,
  All, Bool-cases, inl, inr,
}
use mathlib.Core.List.{Perm, append-nil, perm_middle}
use mathlib.Core.List.Perm
use call_node.Proposer.Ops.{insert_by_key, sort_from}

module _ {A : Type 0} where
  abbrev pub drop : ℕ → List A → List A
  drop zero xs = xs
  drop (suc n) [] = []
  drop (suc n) (x ∷ xs) = drop n xs

  pub take-append-drop : (n : ℕ) (xs : List A) → take n xs ++ drop n xs ≡ xs
  take-append-drop zero xs = refl
  take-append-drop (suc n) [] = refl
  take-append-drop (suc n) (x ∷ xs) = ap (λ ys. x ∷ ys) (take-append-drop n xs)

  pub length-take : (n : ℕ) (xs : List A) → length (take n xs) ≡ min n (length xs)
  length-take zero xs = omega arith
  length-take (suc n) [] = omega arith
  length-take (suc n) (x ∷ xs) = omega (arith, length-take n xs)

module _ {A : Type 0} (key : A → ℕ) where
  abbrev pub IsSortedBy : List A → Type 0
  IsSortedBy [] = Unit
  IsSortedBy (x ∷ xs) = All (λ y. key x ≤ key y) xs × IsSortedBy xs

  All-insert_by_key :
      (P : A → Type 0) (a : A) (xs : List A) → P a → All P xs → All P (insert_by_key key a xs)
  All-insert_by_key P a [] p h = (p, tt)
  All-insert_by_key P a (x ∷ xs) p h = elim (Bool-cases (ltb (key a) (key x))) [
    | inl less ↦ rw less (p, h)
    | inr more ↦ rw more (h.0, All-insert_by_key P a xs p h.1)
  ]

  weaker :
      (a x : A) (xs : List A)
      → key a ≤ key x
      → All (λ y. key x ≤ key y) xs
      → All (λ y. key a ≤ key y) xs
  weaker a x [] h k = tt
  weaker a x (y ∷ ys) h k = (omega (arith, h, k.0), weaker a x ys h k.1)

  insert_by_key-IsSortedBy :
      (a : A) (xs : List A) → IsSortedBy xs → IsSortedBy (insert_by_key key a xs)
  insert_by_key-IsSortedBy a [] s = (tt, tt)
  insert_by_key-IsSortedBy a (x ∷ xs) s = elim (Bool-cases (ltb (key a) (key x))) [
    | inl less ↦ rw less ((ground arith, weaker a x xs (ground arith) s.0), s)
    | inr more ↦ rw more (
      All-insert_by_key (λ y. key x ≤ key y) a xs (ground arith) s.0,
      insert_by_key-IsSortedBy a xs s.1,
    )
  ]

  pub sort_from-IsSortedBy :
      (sorted xs : List A) → IsSortedBy sorted → IsSortedBy (sort_from key sorted xs)
  sort_from-IsSortedBy sorted [] s = s
  sort_from-IsSortedBy sorted (x ∷ xs) s =
      sort_from-IsSortedBy (insert_by_key key x sorted) xs (insert_by_key-IsSortedBy x sorted s)

  insert_by_key-Perm : (a : A) (xs : List A) → Perm (insert_by_key key a xs) (a ∷ xs)
  insert_by_key-Perm a [] = Perm.rfl
  insert_by_key-Perm a (x ∷ xs) = elim (Bool-cases (ltb (key a) (key x))) [
    | inl less ↦ rw less Perm.rfl
    | inr more ↦ rw more (Perm.trans (Perm.cons x (insert_by_key-Perm a xs)) (Perm.swap a x xs))
  ]

  sort_from-Perm : (sorted xs : List A) → Perm (sort_from key sorted xs) (xs ++ sorted)
  sort_from-Perm sorted [] = Perm.rfl
  sort_from-Perm sorted (x ∷ xs) =
      Perm.trans (sort_from-Perm (insert_by_key key x sorted) xs)
        (Perm.trans (Perm.append_left xs (insert_by_key-Perm x sorted)) (perm_middle xs sorted))

  pub sort-Perm : (xs : List A) → Perm (sort_from key [] xs) xs
  sort-Perm xs = subst (Perm (sort_from key [] xs)) (append-nil xs) (sort_from-Perm [] xs)

  length-insert_by_key : (a : A) (xs : List A) → length (insert_by_key key a xs) ≡ length xs + 1
  length-insert_by_key a [] = refl
  length-insert_by_key a (x ∷ xs) = ground (arith, length-insert_by_key a xs)

  pub length-sort_from :
      (sorted xs : List A) → length (sort_from key sorted xs) ≡ length xs + length sorted
  length-sort_from sorted [] = omega arith
  length-sort_from sorted (x ∷ xs) =
      omega (arith, length-sort_from (insert_by_key key x sorted) xs, length-insert_by_key x sorted)

  All-drop : (P : A → Type 0) (n : ℕ) (xs : List A) → All P xs → All P (drop n xs)
  All-drop P zero xs h = h
  All-drop P (suc n) [] h = h
  All-drop P (suc n) (x ∷ xs) h = All-drop P n xs h.1

  -- The first elements of a sorted list are no greater than the others.
  pub first_are_least :
      (n : ℕ) (xs : List A)
      → IsSortedBy xs
      → All (λ c. All (λ r. key c ≤ key r) (drop n xs)) (take n xs)
  first_are_least zero xs s = tt
  first_are_least (suc n) [] s = tt
  first_are_least (suc n) (x ∷ xs) s =
      (All-drop (λ y. key x ≤ key y) n xs s.0, first_are_least n xs s.1)
