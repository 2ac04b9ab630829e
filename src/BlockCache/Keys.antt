-- ===== src/BlockCache/Keys.antt =====
-- Keys of the map under insertion and removal.
use call_node.Prelude.{
  ℕ, ◌+◌, ◌≡◌, refl, sym, ap, ◌∙◌, subst, true, false, [], ◌∷◌, arith, ◌==◌, length, Dict, insert,
  remove, contains_key, nat_key, HasDistinctKeys, Bool-cases, inl, inr, ==_refl, ==_iff,
}
use mathlib.Core.Bool.{false≢true}

module _ {B : Type 0} where
  pub contains_key-remove_other :
      (i k : ℕ) (d : Dict ℕ B)
      → (i == k) ≡ false
      → contains_key i d ≡ true
      → contains_key i (remove k d) ≡ true
  contains_key-remove_other i k [] n h = h
  contains_key-remove_other i k ((j, b) ∷ d) n h = ground (arith, contains_key-remove_other i k d n)

  pub contains_key-remove_absent :
      (i k : ℕ) (d : Dict ℕ B) → contains_key i d ≡ false → contains_key i (remove k d) ≡ false
  contains_key-remove_absent i k [] h = h
  contains_key-remove_absent i k ((j, b) ∷ d) h = ground (arith, contains_key-remove_absent i k d)

  pub remove-HasDistinctKeys :
      (k : ℕ) (d : Dict ℕ B) → HasDistinctKeys d → HasDistinctKeys (remove k d)
  remove-HasDistinctKeys k [] h = tt
  remove-HasDistinctKeys k ((j, b) ∷ d) h = elim (Bool-cases (j == k)) [
    | inl same ↦ rw same h.1
    | inr differ ↦ rw differ (contains_key-remove_absent j k d h.0, remove-HasDistinctKeys k d h.1)
  ]

  pub length-remove :
      (k : ℕ) (d : Dict ℕ B) → contains_key k d ≡ true → length d ≡ length (remove k d) + 1
  length-remove k [] h = absurd (ground (arith, h))
  length-remove k ((j, b) ∷ d) h = ground (arith, length-remove k d)

  pub length-remove_absent :
      (k : ℕ) (d : Dict ℕ B) → contains_key k d ≡ false → length (remove k d) ≡ length d
  length-remove_absent k [] h = refl
  length-remove_absent k ((j, b) ∷ d) h = ground (arith, length-remove_absent k d)

  pub contains_key-remove_back :
      (i k : ℕ) (d : Dict ℕ B) → contains_key i (remove k d) ≡ true → contains_key i d ≡ true
  contains_key-remove_back i k d h = elim (Bool-cases (contains_key i d)) [
    | inl yes_it ↦ yes_it
    | inr no_it ↦ absurd (false≢true (sym (contains_key-remove_absent i k d no_it) ∙ h))
  ]

  pub contains_key-remove_itself :
      (k : ℕ) (d : Dict ℕ B) → HasDistinctKeys d → contains_key k (remove k d) ≡ false
  contains_key-remove_itself k [] h = refl
  contains_key-remove_itself k ((j, b) ∷ d) h = elim (Bool-cases (j == k)) [
    | inl same ↦ rw same (subst (λ i. contains_key i d ≡ false) ((==_iff j k).0 same) h.0)
    | inr differ ↦ rw (differ, differ) (contains_key-remove_itself k d h.1)
  ]

  pub removed_differs :
      (k i : ℕ) (d : Dict ℕ B)
      → HasDistinctKeys d
      → contains_key i (remove k d) ≡ true
      → (k == i) ≡ false
  removed_differs k i d h c = elim (Bool-cases (k == i)) [
    | inl same ↦ absurd (
        false≢true (
          sym (contains_key-remove_itself k d h)
          ∙ ap (λ x. contains_key x (remove k d)) ((==_iff k i).0 same)
          ∙ c))
    | inr differ ↦ differ
  ]

  pub contains_key-insert_itself :
      (k : ℕ) (b : B) (d : Dict ℕ B) → contains_key k (insert k b d) ≡ true
  contains_key-insert_itself k b [] = ground (arith, ==_refl k)
  contains_key-insert_itself k b ((j, w) ∷ d) = ground (arith, contains_key-insert_itself k b d)

  pub contains_key-insert_back :
      (i k : ℕ) (b : B) (d : Dict ℕ B)
      → (k == i) ≡ false
      → contains_key i (insert k b d) ≡ true
      → contains_key i d ≡ true
  contains_key-insert_back i k b [] n h = absurd (ground (arith, n, h))
  contains_key-insert_back i k b ((j, w) ∷ d) n h = elim (Bool-cases (j == i)) [
    | inl same ↦ ground (arith, same)
    | inr differ ↦ elim (Bool-cases (j == k)) [
      | inl meets ↦ ground (arith, differ, meets, h)
      | inr misses ↦ ground (arith, differ, misses, h, contains_key-insert_back i k b d n)
    ]
  ]
