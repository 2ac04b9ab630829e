-- ===== src/Mempool/Entries.antt =====
-- The invariant of `PriorityPool` of crates/mempool/src/priority.rs under insertion and removal.
use call_node.Prelude.{
  ℕ, ◌+◌, ◌^◌, ◌<◌, ◌≡◌, refl, subst, true, false, List, [], ◌∷◌, arith, All, Bool-cases, inl, inr,
}
use call_node.Mempool.Types.{MempoolEntry, PriorityPool}
use call_node.Mempool.Priority.{
  Keyed, key_ltb, key_beq, insert_key, remove_key, remove_keys, insert_entry,
}
use call_node.Mempool.Order.{IsAscending, IsKeyed, IsPool}

pub All-insert_key :
    (P : Keyed → Type 0) (k : ℕ × ℕ) (e : MempoolEntry) (es : List Keyed)
    → All (λ x. key_beq k x.0 ≡ false) es
    → P (k, e)
    → All P es
    → All P (insert_key k e es)
All-insert_key P k e [] f p h = (p, tt)
All-insert_key P k e (x ∷ xs) f p h = elim (Bool-cases (key_ltb k x.0)) [
  | inl less ↦ rw less (p, h)
  | inr more ↦ rw (more, f.0) (h.0, All-insert_key P k e xs f.1 p h.1)
]

key_ltb_rest :
    (k : ℕ × ℕ) (x : Keyed) (xs : List Keyed)
    → key_ltb k x.0 ≡ true
    → All (λ y. key_ltb x.0 y.0 ≡ true) xs
    → All (λ y. key_ltb k y.0 ≡ true) xs
key_ltb_rest k x [] less h = tt
key_ltb_rest k x (y ∷ ys) less h = (ground arith, key_ltb_rest k x ys less h.1)

insert_key-IsAscending :
    (k : ℕ × ℕ) (e : MempoolEntry) (es : List Keyed)
    → All (λ x. key_beq k x.0 ≡ false) es
    → IsAscending es
    → IsAscending (insert_key k e es)
insert_key-IsAscending k e [] f a = (tt, tt)
insert_key-IsAscending k e (x ∷ xs) f a = elim (Bool-cases (key_ltb k x.0)) [
  | inl less ↦ rw less ((less, key_ltb_rest k x xs less a.0), a)
  | inr more ↦
      rw (more, f.0)
        (
          All-insert_key (λ y. key_ltb x.0 y.0 ≡ true) k e xs f.1 (ground (arith, f.0)) a.0,
          insert_key-IsAscending k e xs f.1 a.1,
        )
]

pub fresh_order :
    (s next : ℕ) (es : List Keyed)
    → All (IsKeyed next) es
    → All (λ x. key_beq (s, next) x.0 ≡ false) es
fresh_order s next [] h = tt
fresh_order s next (x ∷ xs) h = (ground arith, fresh_order s next xs h.1)

IsKeyed-later : (next : ℕ) (es : List Keyed) → All (IsKeyed next) es → All (IsKeyed (next + 1)) es
IsKeyed-later next [] h = tt
IsKeyed-later next (x ∷ xs) h = ((h.0.0, omega arith), IsKeyed-later next xs h.1)

-- An insertion keeps the pool in order.
pub insert_entry-IsPool :
    (p : PriorityPool) (e : MempoolEntry)
    → p.next_order + 1 < 2 ^ 64
    → IsPool p
    → IsPool (insert_entry p e).1
unfolding insert_entry
insert_entry-IsPool p e h k = (
  insert_key-IsAscending (e.score, p.next_order) e p.entries fresh k.0,
  subst (λ n. All (IsKeyed n) (insert_key (e.score, p.next_order) e p.entries)) (omega (arith, h))
      (All-insert_key (IsKeyed (p.next_order + 1)) (e.score, p.next_order) e p.entries fresh
        (refl, omega arith) (IsKeyed-later p.next_order p.entries k.1)),
)
  where
    fresh : All (λ x. key_beq (e.score, p.next_order) x.0 ≡ false) p.entries
    fresh = fresh_order e.score p.next_order p.entries k.1

pub All-remove_key :
    (P : Keyed → Type 0) (k : ℕ × ℕ) (es : List Keyed) → All P es → All P (remove_key k es)
All-remove_key P k [] h = tt
All-remove_key P k (x ∷ xs) h = elim (Bool-cases (key_beq k x.0)) [
  | inl same ↦ rw same h.1
  | inr differ ↦ rw differ (h.0, All-remove_key P k xs h.1)
]

pub remove_key-IsAscending :
    (k : ℕ × ℕ) (es : List Keyed) → IsAscending es → IsAscending (remove_key k es)
remove_key-IsAscending k [] a = tt
remove_key-IsAscending k (x ∷ xs) a = elim (Bool-cases (key_beq k x.0)) [
  | inl same ↦ rw same a.1
  | inr differ ↦
      rw differ
        (All-remove_key (λ y. key_ltb x.0 y.0 ≡ true) k xs a.0, remove_key-IsAscending k xs a.1)
]

pub remove_keys-IsPool :
    (next : ℕ) (ks : List (ℕ × ℕ)) (es : List Keyed)
    → IsAscending es
    → All (IsKeyed next) es
    → IsAscending (remove_keys ks es) × All (IsKeyed next) (remove_keys ks es)
remove_keys-IsPool next [] es a h = (a, h)
remove_keys-IsPool next (k ∷ ks) es a h =
    remove_keys-IsPool next ks (remove_key k es) (remove_key-IsAscending k es a)
      (All-remove_key (IsKeyed next) k es h)
