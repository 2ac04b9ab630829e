-- ===== src/Mempool/Hashes.antt =====
-- The hashes that the pool of crates/mempool/src/pool.rs holds, against those it knows.
use call_node.Prelude.{
  ℕ, ◌≡◌, sym, ap, ◌∙◌, subst, true, false, List, [], ◌∷◌, arith, ◌==◌, if◌then◌else◌, All,
  Bool-cases, inl, inr, none, some, member, include, exclude, nat_key, ==_iff, ==_refl,
}
use mathlib.Core.Option.{some-injective}
use call_node.Mempool.Types.{MempoolEntry}
use call_node.Mempool.Priority.{Keyed, key_ltb, key_beq, insert_key, remove_key, find_hash}
use call_node.Mempool.Order.{key_beq_refl, IsAscending}
use call_node.Mempool.Entries.{All-insert_key, All-remove_key}

-- No two entries have the same hash.
abbrev pub HasDistinctHashes : List Keyed → Type 0
HasDistinctHashes [] = Unit
HasDistinctHashes (x ∷ xs) = All (λ y. (x.1.hash == y.1.hash) ≡ false) xs × HasDistinctHashes xs

-- The hash of the entry is known.
abbrev pub IsKnown : List ℕ → Keyed → Type 0
IsKnown known x = member x.1.hash known ≡ true

pub unknown_is_fresh :
    (h : ℕ) (known : List ℕ) (xs : List Keyed)
    → member h known ≡ false
    → All (IsKnown known) xs
    → All (λ y. (y.1.hash == h) ≡ false) xs
unknown_is_fresh h known [] n k = tt
unknown_is_fresh h known (x ∷ xs) n k = (differs, unknown_is_fresh h known xs n k.1)
  where
    differs : (x.1.hash == h) ≡ false
    differs = elim (Bool-cases (x.1.hash == h)) [
      | inl same ↦
          absurd (ground (arith, n, k.0, ap (λ i. member i known) ((==_iff x.1.hash h).0 same)))
      | inr differ ↦ differ
    ]

pub insert_key-HasDistinctHashes :
    (k : ℕ × ℕ) (e : MempoolEntry) (xs : List Keyed)
    → All (λ x. key_beq k x.0 ≡ false) xs
    → All (λ y. (y.1.hash == e.hash) ≡ false) xs
    → HasDistinctHashes xs
    → HasDistinctHashes (insert_key k e xs)
insert_key-HasDistinctHashes k e [] f n d = (tt, tt)
insert_key-HasDistinctHashes k e (x ∷ xs) f n d = elim (Bool-cases (key_ltb k x.0)) [
  | inl less ↦ rw less (turned (x ∷ xs) n, d)
  | inr more ↦
      rw (more, f.0)
        (
          All-insert_key (λ y. (x.1.hash == y.1.hash) ≡ false) k e xs f.1 n.0 d.0,
          insert_key-HasDistinctHashes k e xs f.1 n.1 d.1,
        )
]
  where
    turned :
        (ys : List Keyed)
        → All (λ y. (y.1.hash == e.hash) ≡ false) ys
        → All (λ y. (e.hash == y.1.hash) ≡ false) ys
    turned [] h = tt
    turned (y ∷ ys) h = (ground arith, turned ys h.1)

pub remove_key-HasDistinctHashes :
    (k : ℕ × ℕ) (xs : List Keyed) → HasDistinctHashes xs → HasDistinctHashes (remove_key k xs)
remove_key-HasDistinctHashes k [] d = tt
remove_key-HasDistinctHashes k (x ∷ xs) d = elim (Bool-cases (key_beq k x.0)) [
  | inl same ↦ rw same d.1
  | inr differ ↦ rw differ (
    All-remove_key (λ y. (x.1.hash == y.1.hash) ≡ false) k xs d.0,
    remove_key-HasDistinctHashes k xs d.1,
  )
]

pub All-removed :
    (h : ℕ) (known : List ℕ) (xs : List Keyed)
    → All (λ y. (h == y.1.hash) ≡ false) xs
    → All (IsKnown known) xs
    → All (IsKnown (exclude h known)) xs
All-removed h known [] n k = tt
All-removed h known (x ∷ xs) n k =
    (member-exclude x.1.hash h known n.0 k.0, All-removed h known xs n.1 k.1)
  where
    member-exclude :
        (i j : ℕ) (s : List ℕ)
        → (j == i) ≡ false
        → member i s ≡ true
        → member i (exclude j s) ≡ true
    member-exclude i j [] d m = m
    member-exclude i j (t ∷ ts) d m = ground (arith, member-exclude i j ts)

pub IsKnown-include :
    (h : ℕ) (known : List ℕ) (xs : List Keyed)
    → All (IsKnown known) xs
    → All (IsKnown (include h known)) xs
IsKnown-include h known [] k = tt
IsKnown-include h known (x ∷ xs) k = (ground (arith, k.0), IsKnown-include h known xs k.1)

pub included : (h : ℕ) (known : List ℕ) → member h (include h known) ≡ true
included h known = ground (arith, ==_refl h)

key_ltb-key_beq : (j k : ℕ × ℕ) → key_ltb j k ≡ true → key_beq k j ≡ false
key_ltb-key_beq j k h = ground arith

first_found :
    (h : ℕ) (x found : Keyed) (xs : List Keyed)
    → (x.1.hash == h) ≡ true
    → find_hash h (x ∷ xs) ≡ some found
    → x ≡ found
first_found h x found xs same e =
    some-injective x found (sym (ap (λ b. if b then some (x.0, x.1) else find_hash h xs) same) ∙ e)

later_found :
    (h : ℕ) (x found : Keyed) (xs : List Keyed)
    → (x.1.hash == h) ≡ false
    → find_hash h (x ∷ xs) ≡ some found
    → find_hash h xs ≡ some found
later_found h x found xs differ e =
    sym (ap (λ b. if b then some (x.0, x.1) else find_hash h xs) differ) ∙ e

find_hash-All :
    (P : Keyed → Type 0) (h : ℕ) (xs : List Keyed) (found : Keyed)
    → All P xs
    → find_hash h xs ≡ some found
    → P found
find_hash-All P h [] found k e = absurd (ground (arith, e))
find_hash-All P h (x ∷ xs) found k e = elim (Bool-cases (x.1.hash == h)) [
  | inl same ↦ subst P (first_found h x found xs same e) k.0
  | inr differ ↦ find_hash-All P h xs found k.1 (later_found h x found xs differ e)
]

-- What is left when the entry with a hash is removed has other hashes.
pub remove_found_other :
    (h : ℕ) (xs : List Keyed) (found : Keyed)
    → IsAscending xs
    → HasDistinctHashes xs
    → find_hash h xs ≡ some found
    → All (λ y. (h == y.1.hash) ≡ false) (remove_key found.0 xs)
remove_found_other h [] found a d e = tt
remove_found_other h (x ∷ xs) found a d e = elim (Bool-cases (x.1.hash == h)) [
  | inl same ↦
      subst (λ f. All (λ y. (h == y.1.hash) ≡ false) (remove_key f.0 (x ∷ xs)))
        (first_found h x found xs same e)
        (rw (key_beq_refl x.0)
          (subst (λ i. All (λ y. (i == y.1.hash) ≡ false) xs) ((==_iff x.1.hash h).0 same) d.0))
  | inr differ ↦
      let below =
        find_hash-All (λ y. key_ltb x.0 y.0 ≡ true) h xs found a.0
          (later_found h x found xs differ e) in
      rw (key_ltb-key_beq x.0 found.0 below)
        (ground arith, remove_found_other h xs found a.1 d.1 (later_found h x found xs differ e))
]

pub find_hash-none :
    (h : ℕ) (xs : List Keyed) → find_hash h xs ≡ none → All (λ y. (h == y.1.hash) ≡ false) xs
find_hash-none h [] e = tt
find_hash-none h (x ∷ xs) e = elim (Bool-cases (x.1.hash == h)) [
  | inl same ↦ absurd (ground (arith, e, same))
  | inr differ ↦ (ground arith, find_hash-none h xs (ground (arith, e, differ)))
]
