-- ===== src/Mempool/Bounds.antt =====
-- How many entries the pool of crates/mempool/src/priority.rs holds, in all and of a sender.
use call_node.Prelude.{
  ℕ, ◌+◌, ◌≤◌, ◌≡◌, refl, false, List, [], ◌∷◌, arith, ◌==◌, if◌then◌else◌, All, Bool-cases, inl,
  inr, length,
}
use call_node.Mempool.Types.{MempoolEntry}
use call_node.Mempool.Priority.{Keyed, key_ltb, key_beq, insert_key, remove_key, count_sender}

-- One for an entry of the sender.
abbrev pub one_of : ℕ → MempoolEntry → ℕ
one_of a e = if e.sender == a then 1 else 0

pub insert_key-counts :
    (k : ℕ × ℕ) (e : MempoolEntry) (xs : List Keyed) (a : ℕ)
    → All (λ x. key_beq k x.0 ≡ false) xs
    → (length (insert_key k e xs) ≡ length xs + 1)
      × (count_sender a (insert_key k e xs) ≡ count_sender a xs + one_of a e)
insert_key-counts k e [] a f = (refl, ground arith)
insert_key-counts k e (x ∷ xs) a f =
    let rest = insert_key-counts k e xs a f.1 in
    elim (Bool-cases (key_ltb k x.0)) [
      | inl less ↦ rw less (omega arith, ground arith)
      | inr more ↦ rw (more, f.0) (omega (arith, rest.0), ground (arith, rest.1))
    ]

pub remove_key-counts :
    (k : ℕ × ℕ) (xs : List Keyed) (a : ℕ)
    → (length (remove_key k xs) ≤ length xs)
      × (count_sender a (remove_key k xs) ≤ count_sender a xs)
remove_key-counts k [] a = (omega arith, omega arith)
remove_key-counts k (x ∷ xs) a =
    let rest = remove_key-counts k xs a in
    elim (Bool-cases (key_beq k x.0)) [
      | inl same ↦ rw same (omega arith, ground arith)
      | inr differ ↦ rw differ (omega (arith, rest.0), ground (arith, rest.1))
    ]
