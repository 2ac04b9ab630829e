-- ===== src/Shielded/Tests.antt =====
-- A tree of depth 2, over a sum of weighted bytes in place of the hash.
use call_node.Prelude.{ℕ, ◌+◌, ◌*◌, ◌%◌, ◌^◌, refl, List, [], ◌∷◌, arith}
use call_node.Shielded.Nullifiers.{new_set}
use call_node.Shielded.Spent.{IsCovered, Call, after_calls, after_calls-IsCovered}
use call_node.Shielded.Merkle.{IncrementalMerkleTree, new_tree, insert}
use call_node.Shielded.Paths.{
  IsInserted, insert-IsInserted, IsFilled, insert_all, insert_all-IsTree,
}

abbrev checksum : List ℕ → ℕ
checksum [] = 7
checksum (b ∷ bs) = (b + 3 * checksum bs) % 1000

abbrev two_leaves : IncrementalMerkleTree
two_leaves = record { depth = 2; count = 2; levels = (5 ∷ 6 ∷ []) ∷ (8 ∷ []) ∷ (9 ∷ []) ∷ [] }

insert-IsInserted_example : IsInserted checksum two_leaves 11 (insert checksum two_leaves 11)
insert-IsInserted_example =
    insert-IsInserted checksum two_leaves 11 (refl, (refl, (refl, (refl, tt)))) (omega arith)

insert_all-IsTree_example : IsFilled 2 3 (insert_all checksum (5 ∷ 6 ∷ 11 ∷ []) (new_tree 2))
insert_all-IsTree_example = insert_all-IsTree checksum 2 (5 ∷ 6 ∷ 11 ∷ []) (omega arith)

after_calls-IsCovered_example :
    IsCovered (after_calls (Call.insert_call 9 ∷ Call.insert_call (2 ^ 200) ∷ []) new_set)
after_calls-IsCovered_example =
    after_calls-IsCovered (Call.insert_call 9 ∷ Call.insert_call (2 ^ 200) ∷ [])
