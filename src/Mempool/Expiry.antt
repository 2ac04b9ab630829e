-- ===== src/Mempool/Expiry.antt =====
-- `remove_expired` of crates/mempool/src/priority.rs against a filter of the entries.
use call_node.Prelude.{
  ℕ, ◌+◌, ◌≡◌, refl, ap, ◌∙◌, true, false, List, [], ◌∷◌, arith, if◌then◌else◌, All, Bool-cases,
  inl, inr, length,
}
use call_node.Mempool.Types.{PriorityPool}
use call_node.Mempool.Priority.{
  Keyed, key_ltb, key_beq, remove_key, remove_keys, remove_expired, expired_keys, is_expired,
}
use call_node.Mempool.Order.{key_beq_refl, IsAscending, IsPool}

-- The entries that have not expired, in their order.
abbrev pub unexpired : ℕ → ℕ → List Keyed → List Keyed
unexpired current_block lifetime [] = []
unexpired current_block lifetime (x ∷ xs) =
    if is_expired x.1 current_block lifetime
    then unexpired current_block lifetime xs
    else (x ∷ unexpired current_block lifetime xs)

remove_keys_other :
    (x : Keyed) (ks : List (ℕ × ℕ)) (xs : List Keyed)
    → All (λ k. key_beq k x.0 ≡ false) ks
    → remove_keys ks (x ∷ xs) ≡ x ∷ remove_keys ks xs
remove_keys_other x [] xs h = refl
remove_keys_other x (k ∷ ks) xs h = rw h.0 (remove_keys_other x ks (remove_key k xs) h.1)

expired_keys_above :
    (b l : ℕ) (x : Keyed) (xs : List Keyed)
    → All (λ y. key_ltb x.0 y.0 ≡ true) xs
    → All (λ k. key_beq k x.0 ≡ false) (expired_keys b l xs)
expired_keys_above b l x [] h = tt
expired_keys_above b l x (y ∷ ys) h = elim (Bool-cases (is_expired y.1 b l)) [
  | inl old ↦ rw old (ground arith, expired_keys_above b l x ys h.1)
  | inr young ↦ rw young (expired_keys_above b l x ys h.1)
]

remove_first : (x : Keyed) (xs : List Keyed) → remove_key x.0 (x ∷ xs) ≡ xs
remove_first x xs = rw (key_beq_refl x.0) refl

remove_keys-expired :
    (b l : ℕ) (xs : List Keyed)
    → IsAscending xs
    → (remove_keys (expired_keys b l xs) xs ≡ unexpired b l xs)
      × (length (expired_keys b l xs) + length (unexpired b l xs) ≡ length xs)
remove_keys-expired b l [] a = (refl, refl)
remove_keys-expired b l (x ∷ xs) a =
    let rest = remove_keys-expired b l xs a.1 in
    elim (Bool-cases (is_expired x.1 b l)) [
      | inl old ↦ rw old (
        ap (remove_keys (expired_keys b l xs)) (remove_first x xs) ∙ rest.0,
        omega (arith, rest.1),
      )
      | inr young ↦ rw young (
        remove_keys_other x (expired_keys b l xs) xs (expired_keys_above b l x xs a.0)
            ∙ ap (λ ys. x ∷ ys) rest.0,
        omega (arith, rest.1),
      )
    ]

-- Expiry leaves exactly the entries that have not expired, and gives the number of the others.
pub remove_expired-unexpired :
    (p : PriorityPool) (current_block lifetime : ℕ)
    → IsPool p
    → let (count, after) = remove_expired p current_block lifetime in
      (after.entries ≡ unexpired current_block lifetime p.entries)
      × (count + length after.entries ≡ length p.entries)
unfolding remove_expired
remove_expired-unexpired p current_block lifetime h =
    let both = remove_keys-expired current_block lifetime p.entries h.0 in
    (
      both.0,
      ap (λ ys. length (expired_keys current_block lifetime p.entries) + length ys) both.0 ∙ both.1,
    )
