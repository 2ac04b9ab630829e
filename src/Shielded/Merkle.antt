-- ===== src/Shielded/Merkle.antt =====
-- IncrementalMerkleTree of crates/shielded/src/merkle.rs. A hash is the number that its 32 bytes
-- spell, and `keccak256` is a parameter. The levels are a list from the leaves to the root; an
-- index out of range, which ends the program, is `none`. The depth is below 64, as the shift takes it.
use call_node.Prelude.{
  ℕ, zero, suc, ◌+◌, ◌-◌, ◌/◌, ◌%◌, ◌^◌, Bool, List, [], ◌∷◌, ◌++◌, Option, none, some, leb, ◌==◌,
  if◌then◌else◌, length, get_elem?, replicate, to_be_bytes,
}

pub record IncrementalMerkleTree : Type 0 where
  pub depth : ℕ
  pub count : ℕ
  pub levels : List (List ℕ)

unfoldable pub new_tree : ℕ → IncrementalMerkleTree
new_tree depth = record { depth = depth; count = 0; levels = replicate (depth + 1) [] }

infixl 20 ◌>>=◌
abbrev pub ◌>>=◌ : {A B : Type 0} → Option A → (A → Option B) → Option B
none >>= f = none
some a >>= f = f a

abbrev pub set_at : ℕ → ℕ → List ℕ → List ℕ
set_at i x [] = []
set_at zero x (y ∷ ys) = x ∷ ys
set_at (suc i) x (y ∷ ys) = y ∷ set_at i x ys

-- `unwrap_or`.
abbrev pub hash_or : ℕ → Option ℕ → ℕ
hash_or h none = h
hash_or h (some k) = k

abbrev pub first_hash : List ℕ → Option ℕ
first_hash [] = none
first_hash (h ∷ hs) = some h

abbrev pub top_level : ℕ → List (List ℕ) → List ℕ
top_level level [] = []
top_level zero (nodes ∷ rest) = nodes
top_level (suc level) (nodes ∷ rest) = top_level level rest

module _ (keccak256 : List ℕ → ℕ) where
  unfoldable pub hash_pair : ℕ → ℕ → ℕ
  hash_pair left right = keccak256 (to_be_bytes 32 left ++ to_be_bytes 32 right)

  unfoldable pub empty_hash : ℕ → ℕ
  empty_hash zero = 0
  empty_hash (suc level) = hash_pair (empty_hash level) (empty_hash level)

  -- `while len <= parent_idx` push, with as many pushes as are missing.
  abbrev pub pad : ℕ → ℕ → List ℕ → List ℕ
  pad level parent_idx nodes = nodes ++ replicate (parent_idx + 1 - length nodes) (empty_hash level)

  abbrev pub combine : ℕ → ℕ → Bool → ℕ
  combine current sibling sibling_is_right =
      if sibling_is_right then hash_pair current sibling else hash_pair sibling current

  -- The parent of the node at an index, from the level of the node.
  abbrev pub left_parent : ℕ → Option ℕ → Option ℕ
  left_parent current none = none
  left_parent current (some left) = some (hash_pair left current)

  unfoldable pub parent_of : ℕ → ℕ → ℕ → List ℕ → Option ℕ
  parent_of level idx current nodes =
      if idx % 2 == 0
      then some (hash_pair current (empty_hash level))
      else left_parent current (get_elem? nodes (idx - 1))

  -- The loop up the tree: the levels above the nodes of a level, and the hash at the top.
  unfoldable pub propagate : ℕ → ℕ → ℕ → List ℕ → List (List ℕ) → Option (ℕ × List (List ℕ))
  propagate level idx current nodes [] = some (current, [])
  propagate level idx current nodes (parents ∷ rest) = do
    parent ← parent_of level idx current nodes
    let above = set_at (idx / 2) parent (pad (level + 1) (idx / 2) parents)
    (top, higher) ← propagate (level + 1) (idx / 2) parent above rest
    some (top, above ∷ higher)

  abbrev pub insert_leaf : ℕ → ℕ → List (List ℕ) → Option (ℕ × List (List ℕ))
  insert_leaf count leaf [] = none
  insert_leaf count leaf (leaves ∷ rest) = do
    let grown = leaves ++ (leaf ∷ [])
    (top, higher) ← propagate 0 count leaf grown rest
    some (top, grown ∷ higher)

  -- `none` where the tree is full.
  unfoldable pub insert : IncrementalMerkleTree → ℕ → Option (ℕ × IncrementalMerkleTree)
  insert t leaf = if leb (2 ^ t.depth) t.count then none else do
    (top, levels) ← insert_leaf t.count leaf t.levels
    some (top, record t { count = t.count + 1; levels = levels })

  unfoldable pub root : IncrementalMerkleTree → ℕ
  root t =
      if t.count == 0
      then empty_hash t.depth
      else hash_or (empty_hash t.depth) (first_hash (top_level t.depth t.levels))

  abbrev pub sibling_of : ℕ → ℕ → List ℕ → ℕ
  sibling_of level idx nodes =
      hash_or (empty_hash level) (get_elem? nodes (if idx % 2 == 1 then idx - 1 else idx + 1))

  -- The siblings on the levels below the last, and whether they are on the right.
  abbrev pub proof_from : ℕ → ℕ → List (List ℕ) → List (ℕ × Bool)
  proof_from level idx [] = []
  proof_from level idx (nodes ∷ []) = []
  proof_from level idx (nodes ∷ parents ∷ rest) =
      (sibling_of level idx nodes, idx % 2 == 0) ∷ proof_from (level + 1) (idx / 2) (parents ∷ rest)

  unfoldable pub proof_for_index : IncrementalMerkleTree → ℕ → List (ℕ × Bool)
  proof_for_index t idx = proof_from 0 idx t.levels

  unfoldable pub proof_for_last : IncrementalMerkleTree → List (ℕ × Bool)
  proof_for_last t = if t.count == 0 then [] else proof_for_index t (t.count - 1)

  abbrev pub climb : ℕ → List (ℕ × Bool) → ℕ
  climb current [] = current
  climb current ((sibling, sibling_is_right) ∷ proof) =
      climb (combine current sibling sibling_is_right) proof

  unfoldable pub verify_merkle_path : ℕ → List (ℕ × Bool) → ℕ → Bool
  verify_merkle_path leaf proof expected_root = climb leaf proof == expected_root
