-- ===== src/Shielded/Paths.antt =====
-- The paths in the tree of crates/shielded/src/merkle.rs: what is inserted is proved by its path.
use call_node.Prelude.{
  ℕ, zero, suc, ◌+◌, ◌-◌, ◌^◌, ◌≤◌, ◌<◌, ◌≡◌, refl, sym, ap, subst, ◌∙◌, true, false, List, [], ◌∷◌,
  ◌++◌, Option, none, some, arith, leb, ◌==◌, ==_refl, length, length-append, length-replicate,
  get_elem?, replicate,
}
use call_node.Shielded.Merkle.{
  IncrementalMerkleTree, new_tree, first_hash, top_level, ◌>>=◌, insert_leaf, insert, root,
  proof_from, proof_for_index, proof_for_last, climb, verify_merkle_path,
}
use call_node.Shielded.Levels.{IsSized, IsLevels, IsRaised, propagate-IsRaised, get_elem?_appended}

module _ (keccak256 : List ℕ → ℕ) where
  abbrev IsRaisedTree : ℕ → ℕ → ℕ → List (List ℕ) → Option (ℕ × List (List ℕ)) → Type 0
  IsRaisedTree depth count leaf levels none = ⊥
  IsRaisedTree depth count leaf levels (some (top, grown)) =
      (climb keccak256 leaf (proof_from keccak256 0 count grown) ≡ top)
      × IsLevels (count + 1) grown
      × (length grown ≡ length levels)
      × (first_hash (top_level depth grown) ≡ some top)

  bind-IsRaisedTree :
      (depth count leaf : ℕ) (leaves grown : List ℕ) (rest : List (List ℕ))
      (o : Option (ℕ × List (List ℕ)))
      → length rest ≡ depth
      → count < 2 ^ depth
      → length grown ≡ count + 1
      → IsRaised keccak256 0 count leaf grown rest o
      → IsRaisedTree depth count leaf (leaves ∷ rest) (o >>= (λ r. some (r.0, grown ∷ r.1)))
  bind-IsRaisedTree depth count leaf leaves grown rest none d lt n h = h
  bind-IsRaisedTree depth count leaf leaves grown rest (some (top, higher)) d lt n h = (
    h.0,
    (n, h.1),
    ap suc h.2,
    subst (λ k. first_hash (top_level k (grown ∷ higher)) ≡ some top) d
        (h.3 (subst (λ k. count < 2 ^ k) (sym d) lt)),
  )

  insert_leaf-IsRaisedTree :
      (depth count leaf : ℕ) (levels : List (List ℕ))
      → length levels ≡ depth + 1
      → IsLevels count levels
      → count < 2 ^ depth
      → IsRaisedTree depth count leaf levels (insert_leaf keccak256 count leaf levels)
  insert_leaf-IsRaisedTree depth count leaf [] d h lt = h
  insert_leaf-IsRaisedTree depth count leaf (leaves ∷ rest) d h lt =
      let grown = leaves ++ (leaf ∷ []) in
      let n : length grown ≡ count + 1 = omega (arith, length-append leaves (leaf ∷ []), h.0) in
      bind-IsRaisedTree depth count leaf leaves grown rest _ (omega (arith, d)) lt n (
        propagate-IsRaised keccak256 rest 0 count leaf count grown n
          (subst (λ k. get_elem? grown k ≡ some leaf) h.0 (get_elem?_appended leaf leaves)) h.1
          (omega arith) (omega arith))

-- A tree whose levels are as many as its depth says, and of the sizes that its leaves need.
abbrev pub IsTree : IncrementalMerkleTree → Type 0
IsTree t = (length t.levels ≡ t.depth + 1) × IsLevels t.count t.levels

-- The outcome of an insertion: the tree stays well formed, its root is the hash returned, and the
-- path of its last leaf leads to the root.
abbrev pub IsInserted :
    (List ℕ → ℕ) → IncrementalMerkleTree → ℕ → Option (ℕ × IncrementalMerkleTree) → Type 0
IsInserted keccak256 t leaf none = ⊥
IsInserted keccak256 t leaf (some (top, t')) =
    IsTree t'
    × (t'.count ≡ t.count + 1)
    × (t'.depth ≡ t.depth)
    × (root keccak256 t' ≡ top)
    × (verify_merkle_path keccak256 leaf (proof_for_last keccak256 t') (root keccak256 t') ≡ true)

bind-IsInserted :
    (keccak256 : List ℕ → ℕ) (t : IncrementalMerkleTree) (leaf : ℕ) (o : Option (ℕ × List (List ℕ)))
    → IsTree t
    → IsRaisedTree keccak256 t.depth t.count leaf t.levels o
    → IsInserted keccak256 t leaf
        (o >>= (λ r. some (r.0, record t { count = t.count + 1; levels = r.1 })))
unfolding root verify_merkle_path proof_for_last proof_for_index
bind-IsInserted keccak256 t leaf none w h = h
bind-IsInserted keccak256 t leaf (some (top, grown)) w h =
    let not_empty : (t.count + 1 == 0) ≡ false = ground arith in
    let same : t.count + 1 - 1 ≡ t.count = omega arith in
    (
      (h.2 ∙ w.0, h.1),
      refl,
      refl,
      rw (not_empty, h.3) refl,
      rw (not_empty, h.3, same, h.0) (==_refl top),
    )

-- A leaf that is inserted in a well-formed tree with room is proved by the path of the last leaf,
-- against the root of the tree, which is the hash returned; the tree stays well formed.
pub insert-IsInserted :
    (keccak256 : List ℕ → ℕ) (t : IncrementalMerkleTree) (leaf : ℕ)
    → IsTree t
    → t.count < 2 ^ t.depth
    → IsInserted keccak256 t leaf (insert keccak256 t leaf)
unfolding insert
insert-IsInserted keccak256 t leaf w lt =
    let room : leb (2 ^ t.depth) t.count ≡ false = ground (arith, lt) in
    rw room (
      bind-IsInserted keccak256 t leaf _ w
        (insert_leaf-IsRaisedTree keccak256 t.depth t.count leaf t.levels w.0 w.1 lt))

replicate-IsSized : (n : ℕ) → IsSized 0 (replicate n [])
replicate-IsSized zero = tt
replicate-IsSized (suc n) =
    (omega arith, subst (λ k. IsSized k (replicate n [])) (omega arith) (replicate-IsSized n))

new_tree-IsTree : (depth : ℕ) → IsTree (new_tree depth)
unfolding new_tree
new_tree-IsTree depth = (
  length-replicate (depth + 1) [],
  let e : suc depth ≡ depth + 1 = omega arith in
      subst (λ k. IsLevels 0 (replicate k [])) e (refl, replicate-IsSized depth),
)

-- The insertions of a list of leaves, one after the other.
unfoldable pub insert_all :
    (List ℕ → ℕ) → List ℕ → IncrementalMerkleTree → Option IncrementalMerkleTree
insert_all keccak256 [] t = some t
insert_all keccak256 (leaf ∷ leaves) t =
    insert keccak256 t leaf >>= (λ r. insert_all keccak256 leaves r.1)

-- A well-formed tree of a depth and a number of leaves.
abbrev pub IsFilled : ℕ → ℕ → Option IncrementalMerkleTree → Type 0
IsFilled depth n none = ⊥
IsFilled depth n (some t) = IsTree t × (t.depth ≡ depth) × (t.count ≡ n)

bind-IsFilled :
    (keccak256 : List ℕ → ℕ) (t : IncrementalMerkleTree) (leaf n : ℕ)
    (o : Option (ℕ × IncrementalMerkleTree))
    (f : ℕ × IncrementalMerkleTree → Option IncrementalMerkleTree)
    → IsInserted keccak256 t leaf o
    → ((r : ℕ × IncrementalMerkleTree)
        → IsTree r.1
        → r.1.depth ≡ t.depth
        → r.1.count ≡ t.count + 1
        → IsFilled t.depth n (f r))
    → IsFilled t.depth n (o >>= f)
bind-IsFilled keccak256 t leaf n none f h k = h
bind-IsFilled keccak256 t leaf n (some r) f h k = k r h.0 h.2 h.1

insert_all-IsFilled :
    (keccak256 : List ℕ → ℕ) (leaves : List ℕ) (t : IncrementalMerkleTree)
    → IsTree t
    → t.count + length leaves ≤ 2 ^ t.depth
    → IsFilled t.depth (t.count + length leaves) (insert_all keccak256 leaves t)
unfolding insert_all
insert_all-IsFilled keccak256 [] t w le = (w, refl, omega arith)
insert_all-IsFilled keccak256 (leaf ∷ leaves) t w le =
    bind-IsFilled keccak256 t leaf _ (insert keccak256 t leaf)
      (λ r. insert_all keccak256 leaves r.1)
      (insert-IsInserted keccak256 t leaf w (omega (arith, le)))
      (λ r tree d c.
        let more : r.1.count + length leaves ≡ t.count + length (leaf ∷ leaves) =
          omega (arith, c) in
        subst (λ n. IsFilled t.depth n (insert_all keccak256 leaves r.1)) more
          (subst (λ k. IsFilled k (r.1.count + length leaves) (insert_all keccak256 leaves r.1)) d
            (insert_all-IsFilled keccak256 leaves r.1 tree
              (subst (λ k. r.1.count + length leaves ≤ 2 ^ k) (sym d) (omega (arith, c, le))))))

-- A new tree takes as many leaves as its depth has room for, and is well formed with that many.
pub insert_all-IsTree :
    (keccak256 : List ℕ → ℕ) (depth : ℕ) (leaves : List ℕ)
    → length leaves ≤ 2 ^ depth
    → IsFilled depth (length leaves) (insert_all keccak256 leaves (new_tree depth))
unfolding new_tree
insert_all-IsTree keccak256 depth leaves le =
    let e : 0 + length leaves ≡ length leaves = omega arith in
    subst (λ n. IsFilled depth n (insert_all keccak256 leaves (new_tree depth))) e
      (insert_all-IsFilled keccak256 leaves (new_tree depth) (new_tree-IsTree depth)
        (omega (arith, le)))
