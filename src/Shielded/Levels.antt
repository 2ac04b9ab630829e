-- ===== src/Shielded/Levels.antt =====
-- The loop up the levels of the tree of crates/shielded/src/merkle.rs.
use call_node.Prelude.{
  ℕ, zero, suc, ◌+◌, ◌-◌, ◌/◌, ◌%◌, ◌^◌, ◌≤◌, ◌<◌, ◌≡◌, refl, ap, subst, ◌∙◌, true, false, List, [],
  ◌∷◌, ◌++◌, Option, none, some, arith, ◌==◌, length, length-append, length-replicate, get_elem?,
  replicate, Bool-cases, inl, inr,
}
use native.Mathlib.Nat.{pow-suc}
use call_node.Shielded.Merkle.{
  set_at, first_hash, top_level, ◌>>=◌, empty_hash, pad, combine, parent_of, propagate, sibling_of,
  proof_from, climb,
}

length-set_at : (i x : ℕ) (xs : List ℕ) → length (set_at i x xs) ≡ length xs
length-set_at i x [] = refl
length-set_at zero x (y ∷ ys) = refl
length-set_at (suc i) x (y ∷ ys) = ap suc (length-set_at i x ys)

get_elem?-set_at : (i x : ℕ) (xs : List ℕ) → i < length xs → get_elem? (set_at i x xs) i ≡ some x
get_elem?-set_at i x [] h = absurd (omega (arith, h))
get_elem?-set_at zero x (y ∷ ys) h = refl
get_elem?-set_at (suc i) x (y ∷ ys) h = get_elem?-set_at i x ys (omega (arith, h))

get_elem?_beyond : (i : ℕ) (xs : List ℕ) → length xs ≤ i → get_elem? xs i ≡ none
get_elem?_beyond i [] h = refl
get_elem?_beyond zero (y ∷ ys) h = absurd (omega (arith, h))
get_elem?_beyond (suc i) (y ∷ ys) h = get_elem?_beyond i ys (omega (arith, h))

get_elem?_within : (i : ℕ) (xs : List ℕ) → i < length xs → (x : ℕ) × (get_elem? xs i ≡ some x)
get_elem?_within i [] h = absurd (omega (arith, h))
get_elem?_within zero (y ∷ ys) h = (y, refl)
get_elem?_within (suc i) (y ∷ ys) h = get_elem?_within i ys (omega (arith, h))

pub get_elem?_appended : (x : ℕ) (xs : List ℕ) → get_elem? (xs ++ (x ∷ [])) (length xs) ≡ some x
get_elem?_appended x [] = refl
get_elem?_appended x (y ∷ ys) = get_elem?_appended x ys

-- Each level has half as many nodes as the one below it, rounded up.
abbrev pub IsSized : ℕ → List (List ℕ) → Type 0
IsSized m [] = Unit
IsSized m (nodes ∷ rest) = (length nodes ≡ (m + 1) / 2) × IsSized ((m + 1) / 2) rest

abbrev pub IsLevels : ℕ → List (List ℕ) → Type 0
IsLevels count [] = ⊥
IsLevels count (leaves ∷ rest) = (length leaves ≡ count) × IsSized count rest

module _ (keccak256 : List ℕ → ℕ) where
  length-pad :
      (level i : ℕ) (nodes : List ℕ)
      → length nodes ≤ i + 1
      → length (pad keccak256 level i nodes) ≡ i + 1
  length-pad level i nodes h = omega (
    arith,
    h,
    length-append nodes (replicate (i + 1 - length nodes) (empty_hash keccak256 level)),
    length-replicate (i + 1 - length nodes) (empty_hash keccak256 level),
  )

  -- The parent that the loop computes is the one to which the path climbs.
  parent_of-combine :
      (level idx current : ℕ) (nodes : List ℕ)
      → length nodes ≡ idx + 1
      → parent_of keccak256 level idx current nodes
        ≡ some (combine keccak256 current (sibling_of keccak256 level idx nodes) (idx % 2 == 0))
  unfolding parent_of
  parent_of-combine level idx current nodes n = elim (Bool-cases (idx % 2 == 0)) [
    | inl even ↦
        let not_one : (idx % 2 == 1) ≡ false = ground (arith, even) in
        rw (even, not_one, get_elem?_beyond (idx + 1) nodes (omega (arith, n))) refl
    | inr odd ↦
        let is_one : (idx % 2 == 1) ≡ true = ground (arith, odd) in
        let (left, found) = get_elem?_within (idx - 1) nodes (omega (arith, n)) in
        rw (odd, is_one, found) refl
  ]

  -- What the loop gives for a node that is the last of its level: it ends, the levels keep their
  -- sizes, and the path of the node climbs to the hash at the top, which is the first of the last
  -- level where the levels are enough.
  abbrev pub IsRaised : ℕ → ℕ → ℕ → List ℕ → List (List ℕ) → Option (ℕ × List (List ℕ)) → Type 0
  IsRaised level idx current nodes rest none = ⊥
  IsRaised level idx current nodes rest (some (top, higher)) =
      (climb keccak256 current (proof_from keccak256 level idx (nodes ∷ higher)) ≡ top)
      × IsSized (idx + 1) higher
      × (length higher ≡ length rest)
      × (idx < 2 ^ length rest → first_hash (top_level (length rest) (nodes ∷ higher)) ≡ some top)

  only_node :
      (current : ℕ) (nodes : List ℕ)
      → get_elem? nodes 0 ≡ some current
      → first_hash nodes ≡ some current
  only_node current [] h = h
  only_node current (x ∷ xs) h = h

  bind-IsRaised :
      (level idx current parent : ℕ) (nodes parents above : List ℕ) (rest : List (List ℕ))
      (o : Option (ℕ × List (List ℕ)))
      → combine keccak256 current (sibling_of keccak256 level idx nodes) (idx % 2 == 0) ≡ parent
      → length above ≡ idx / 2 + 1
      → IsRaised (level + 1) (idx / 2) parent above rest o
      → IsRaised level idx current nodes (parents ∷ rest) (o >>= (λ r. some (r.0, above ∷ r.1)))
  bind-IsRaised level idx current parent nodes parents above rest none e n h = h
  bind-IsRaised level idx current parent nodes parents above rest (some (top, higher)) e n h = (
    ap (λ c. climb keccak256 c (proof_from keccak256 (level + 1) (idx / 2) (above ∷ higher))) e
        ∙ h.0,
    (omega (arith, n), subst (λ k. IsSized k higher) (omega arith) h.1),
    ap suc h.2,
    (λ lt. h.3 (omega (arith, lt, pow-suc 2 (length rest)))),
  )

  pub propagate-IsRaised :
      (rest : List (List ℕ)) (level idx current m : ℕ) (nodes : List ℕ)
      → length nodes ≡ idx + 1
      → get_elem? nodes idx ≡ some current
      → IsSized m rest
      → idx ≤ m
      → m ≤ idx + 1
      → IsRaised level idx current nodes rest (propagate keccak256 level idx current nodes rest)
  unfolding propagate
  propagate-IsRaised [] level idx current m nodes n here sized low high = (
    refl,
    tt,
    refl,
    (λ lt.
        only_node current nodes
          (subst (λ i. get_elem? nodes i ≡ some current) (omega (arith, lt)) here)),
  )
  propagate-IsRaised (parents ∷ rest) level idx current m nodes n here sized low high =
      let parent =
        combine keccak256 current (sibling_of keccak256 level idx nodes) (idx % 2 == 0) in
      let padded = pad keccak256 (level + 1) (idx / 2) parents in
      let above = set_at (idx / 2) parent padded in
      let n_padded = length-pad (level + 1) (idx / 2) parents (omega (arith, sized.0, low, high)) in
      let n_above : length above ≡ idx / 2 + 1 = length-set_at (idx / 2) parent padded ∙ n_padded in
      rw (parent_of-combine level idx current nodes n) (
        bind-IsRaised level idx current parent nodes parents above rest _ refl n_above (
          propagate-IsRaised rest (level + 1) (idx / 2) parent ((m + 1) / 2) above n_above
            (get_elem?-set_at (idx / 2) parent padded (omega (arith, n_padded))) sized.1
            (omega (arith, low, high)) (omega (arith, low, high))))
