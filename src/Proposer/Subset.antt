-- ===== src/Proposer/Subset.antt =====
-- The subset and the proposer that crates/consensus/src/proposer.rs chooses.
use call_node.Prelude.{
  ℕ, zero, suc, ◌+◌, ◌*◌, ◌%◌, ◌≤◌, ◌<◌, ◌≡◌, refl, sym, ap, ◌∙◌, subst, min, true, false, List, [],
  ◌∷◌, ◌++◌, map, some, arith, ◌==◌, length, get_elem?, take, All, Dict, member, nat_key, ==_refl,
}
use mathlib.Core.List.{Perm}
use mathlib.Core.List.Perm
use native.Mathlib.Nat.{mul-add-mod_self_right, mod-eq_of_lt}
use call_node.Proposer.Ops.{
  sort_from, scored, select_proposer_subset, select_proposer, verify_proposer_in_subset,
}
use call_node.Proposer.Sorting.{
  drop, take-append-drop, length-take, IsSortedBy, sort_from-IsSortedBy, sort-Perm,
  length-sort_from, first_are_least,
}

abbrev pub score_of : ℕ × ℕ → ℕ
score_of v = v.1

abbrev pub id_of : ℕ × ℕ → ℕ
id_of v = v.0

-- The candidates with their scores are divided into as many as the size allows, whose ids are the
-- subset in order, and others, none of which has a smaller score.
abbrev pub IsSelection : List (ℕ × ℕ) → ℕ → List ℕ → Type 0
IsSelection candidates size subset =
    (chosen : List (ℕ × ℕ)) × (rest : List (ℕ × ℕ)) × (Perm (chosen ++ rest) candidates
      × ((length chosen ≡ min size (length candidates))
          × ((All (λ c. All (λ r. score_of c ≤ score_of r) rest) chosen)
              × (Perm subset (map id_of chosen) × IsSortedBy (λ (id : ℕ). id) subset))))

suc_is_not_zero : (n : ℕ) → (suc n == 0) ≡ false
suc_is_not_zero n = ground arith

module _ (vrf_sortition_score : ℕ → ℕ → ℕ) where
  ranked-IsSelection :
      (candidates : List (ℕ × ℕ)) (size : ℕ)
      → IsSelection candidates size (
          sort_from
            (λ (id : ℕ). id)
            []
            (map (λ (v : ℕ × ℕ). v.0) (take size (sort_from (λ (v : ℕ × ℕ). v.1) [] candidates))))
  ranked-IsSelection candidates size = (
    take size ranked,
    drop size ranked,
    (
      subst (λ l. Perm l candidates) (sym (take-append-drop size ranked))
          (sort-Perm score_of candidates),
      (
        length-take size ranked
            ∙ ap (min size) (omega (arith, length-sort_from score_of [] candidates)),
        (
          first_are_least score_of size ranked (sort_from-IsSortedBy score_of [] candidates tt),
          (
            sort-Perm (λ (id : ℕ). id) (map id_of (take size ranked)),
            sort_from-IsSortedBy (λ (id : ℕ). id) [] (map id_of (take size ranked)) tt,
          ),
        ),
      ),
    ),
  )
    where
      ranked : List (ℕ × ℕ)
      ranked = sort_from score_of [] candidates

  -- The subset consists of as many candidates, validators with a key, as the size allows, in the
  -- order of their ids, and no candidate left out has a smaller score than one chosen.
  pub select_proposer_subset-IsSelection :
      (validators : List ℕ) (keys : Dict ℕ ℕ) (seed size : ℕ)
      → IsSelection
          (scored vrf_sortition_score keys seed validators)
          size
          (select_proposer_subset vrf_sortition_score validators keys seed size)
  unfolding select_proposer_subset
  select_proposer_subset-IsSelection [] keys seed size =
      ([], [], (Perm.rfl, (omega arith, (tt, (Perm.rfl, tt)))))
  select_proposer_subset-IsSelection (v ∷ vs) keys seed zero = (
    [],
    scored vrf_sortition_score keys seed (v ∷ vs),
    (Perm.rfl, (omega arith, (tt, (Perm.rfl, tt)))),
  )
  select_proposer_subset-IsSelection (v ∷ vs) keys seed (suc n) =
      rw (suc_is_not_zero n)
        (ranked-IsSelection (scored vrf_sortition_score keys seed (v ∷ vs)) (suc n))

get_elem?-member :
    (xs : List ℕ) (i : ℕ)
    → i < length xs
    → (x : ℕ) × ((get_elem? xs i ≡ some x) × (member x xs ≡ true))
get_elem?-member [] i h = absurd (omega (arith, h))
get_elem?-member (x ∷ xs) zero h = (x, (refl, ground (arith, ==_refl x)))
get_elem?-member (x ∷ xs) (suc i) h =
    let (y, found) = get_elem?-member xs i (omega (arith, h)) in
    (y, (found.0, ground (arith, found.1)))

-- Of a subset that is not empty a proposer is chosen in every round, who is verified to be in it.
pub select_proposer-verified :
    (first : ℕ) (others : List ℕ) (round : ℕ)
    → (p : ℕ) × ((select_proposer (first ∷ others) round ≡ some p)
        × (verify_proposer_in_subset p (first ∷ others) ≡ true))
unfolding select_proposer verify_proposer_in_subset
select_proposer-verified first others round =
    get_elem?-member (first ∷ others) (round % length (first ∷ others)) (omega arith)

-- In each stretch of as many rounds as the subset has members, each place has its turn.
pub select_proposer_turn :
    (first : ℕ) (others : List ℕ) (cycle place : ℕ)
    → place < length (first ∷ others)
    → select_proposer (first ∷ others) (cycle * length (first ∷ others) + place)
      ≡ get_elem? (first ∷ others) place
unfolding select_proposer
select_proposer_turn first others cycle place h =
    ap (get_elem? (first ∷ others))
      (mul-add-mod_self_right cycle (length (first ∷ others)) place ∙ mod-eq_of_lt h)
