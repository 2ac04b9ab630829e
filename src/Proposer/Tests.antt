-- ===== src/Proposer/Tests.antt =====
-- Three validators, of which one has no key, with the key as the score.
use call_node.Prelude.{ℕ, ◌+◌, ◌*◌, ◌≡◌, refl, List, [], ◌∷◌, arith, get_elem?, length, Dict}
use call_node.Proposer.Ops.{scored, select_proposer_subset, select_proposer}
use call_node.Proposer.Subset.{
  IsSelection, select_proposer_subset-IsSelection, select_proposer_turn,
}
use call_node.Proposer.Limits.{}

abbrev key_plus_seed : ℕ → ℕ → ℕ
key_plus_seed key seed = key + seed

abbrev keys : Dict ℕ ℕ
keys = (1, 30) ∷ (2, 20) ∷ (4, 10) ∷ []

abbrev pair : List ℕ
pair = 2 ∷ 4 ∷ []

abbrev validators : List ℕ
validators = 1 ∷ 2 ∷ 3 ∷ 4 ∷ []

select_proposer_subset-IsSelection_example :
    IsSelection
      (scored key_plus_seed keys 7 validators)
      2
      (select_proposer_subset key_plus_seed validators keys 7 2)
select_proposer_subset-IsSelection_example =
    select_proposer_subset-IsSelection key_plus_seed validators keys 7 2

-- The two of the smallest scores, in the order of their ids.
two_are_chosen : select_proposer_subset key_plus_seed validators keys 7 2 ≡ 2 ∷ 4 ∷ []
unfolding select_proposer_subset
two_are_chosen = refl

select_proposer_turn_example : select_proposer pair (3 * length pair + 1) ≡ get_elem? pair 1
select_proposer_turn_example = select_proposer_turn 2 (4 ∷ []) 3 1 (omega arith)
