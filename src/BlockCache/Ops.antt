-- ===== src/BlockCache/Ops.antt =====
-- The operations of crates/consensus/src/block_cache.rs. A digest is the number of its bytes; the
-- type of blocks is a parameter.
use call_node.Prelude.{
  ℕ, List, [], ◌∷◌, ◌++◌, Option, leb, ◌==◌, if◌then◌else◌, length, Dict, lookup, insert, remove,
  contains_key, nat_key,
}

pub record BlockCache (B : Type 0) : Type 0 where
  pub blocks : Dict ℕ B
  pub order : List ℕ
  pub max_size : ℕ

-- `retain` of the other digests.
abbrev pub retain_other : ℕ → List ℕ → List ℕ
retain_other d [] = []
retain_other d (x ∷ xs) = if x == d then retain_other d xs else (x ∷ retain_other d xs)

module _ {B : Type 0} where
  unfoldable pub new_cache : ℕ → BlockCache B
  new_cache capacity = record { blocks = []; order = []; max_size = capacity }

  -- The cache without the block that came first.
  abbrev pub evict : BlockCache B → BlockCache B
  evict c = elim c.order [
    | [] ↦ c
    | oldest ∷ rest ↦ record c { blocks = remove oldest c.blocks; order = rest }
  ]

  unfoldable pub insert_block : BlockCache B → ℕ → B → BlockCache B
  insert_block c digest block =
      let room = if leb c.max_size (length c.blocks) then evict c else c in
      if contains_key digest c.blocks then c else (record room {
        order = room.order ++ digest ∷ [];
        blocks = insert digest block room.blocks;
      })

  unfoldable pub get : BlockCache B → ℕ → Option B
  get c digest = lookup digest c.blocks

  unfoldable pub remove_block : BlockCache B → ℕ → Option B × BlockCache B
  remove_block c digest = (
    lookup digest c.blocks,
    record c { order = retain_other digest c.order; blocks = remove digest c.blocks },
  )

  unfoldable pub clear_cache : BlockCache B → BlockCache B
  clear_cache c = record c { blocks = []; order = [] }
