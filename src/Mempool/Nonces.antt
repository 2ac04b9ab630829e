-- ===== src/Mempool/Nonces.antt =====
-- The nonces that crates/mempool/src/pool.rs expects, and what an accepted transaction changes.
use call_node.Prelude.{
  ℕ, ◌+◌, ◌^◌, ◌<◌, ◌≡◌, refl, sym, ap, ◌∙◌, subst, true, false, List, [], ◌∷◌, arith, max,
  saturating_add, u64_max, Bool-cases, inl, inr, Option, none, some, All, member, nat_key, Result,
  ok, err, ==_refl,
}
use call_node.Mempool.Types.{MempoolEntry, PriorityPool, EvmTransaction, MempoolError, Mempool}
use MempoolError.{duplicate}
use call_node.Mempool.Priority.{
  Keyed, key_ltb, key_beq, insert_key, insert_entry, nonces_of, max_of, get_address_nonce,
}
use call_node.Mempool.Pool.{
  insert_hashed, insert_evm_tx, insert_evm_tx_with_state, get_expected_evm_nonce, prune_expired,
  set_current_block, entry_of,
}
use call_node.Mempool.Order.{IsPool}
use call_node.Mempool.Entries.{fresh_order}
use call_node.Mempool.Hashes.{included}
use mathlib.Core.Path.{Path}
use call_node.Mempool.Serving.{with_state-cases, insert_evm_tx-cases}
use call_node.Mempool.Admission.{admitted, insert_hashed-cases}

-- One above the greatest, or zero of none.
abbrev after_all : List ℕ → ℕ
after_all [] = 0
after_all (n ∷ ns) = max (saturating_add u64_max n 1) (after_all ns)

abbrev after_max : Option ℕ → ℕ
after_max none = 0
after_max (some n) = saturating_add u64_max n 1

after_max_step :
    (n : ℕ) (o : Option ℕ)
    → after_max (elim o [ none ↦ some n | some m ↦ some (max n m) ])
      ≡ max (saturating_add u64_max n 1) (after_max o)
after_max_step n none = omega arith
after_max_step n (some m) = ground arith

max_of-after_all : (ns : List ℕ) → after_max (max_of ns) ≡ after_all ns
max_of-after_all [] = refl
max_of-after_all (n ∷ ns) =
    after_max_step n (max_of ns) ∙ ap (max (saturating_add u64_max n 1)) (max_of-after_all ns)

after_all-insert_key :
    (k : ℕ × ℕ) (e : MempoolEntry) (xs : List Keyed)
    → All (λ x. key_beq k x.0 ≡ false) xs
    → after_all (nonces_of e.sender (insert_key k e xs))
      ≡ max (saturating_add u64_max e.nonce 1) (after_all (nonces_of e.sender xs))
after_all-insert_key k e [] f = rw (==_refl e.sender) refl
after_all-insert_key k e (x ∷ xs) f = elim (Bool-cases (key_ltb k x.0)) [
  | inl less ↦ rw (less, ==_refl e.sender) refl
  | inr more ↦ rw (more, f.0) (ground (arith, after_all-insert_key k e xs f.1))
]

get_address_nonce-after_all :
    (p : PriorityPool) (a : ℕ) → get_address_nonce p a ≡ after_all (nonces_of a p.entries)
unfolding get_address_nonce
get_address_nonce-after_all p a = max_of-after_all (nonces_of a p.entries)

next_nonce : (n : ℕ) → n + 1 < 2 ^ 64 → saturating_add u64_max n 1 ≡ n + 1
next_nonce n b = ground arith

get_expected_evm_nonce-admitted :
    (m : Mempool) (tx : EvmTransaction) (bytes : List ℕ) (hash committed_nonce : ℕ)
    → IsPool m.evm_pool
    → tx.nonce + 1 < 2 ^ 64
    → tx.nonce ≡ get_expected_evm_nonce m tx.caller committed_nonce
    → get_expected_evm_nonce (admitted m tx bytes hash) tx.caller committed_nonce ≡ tx.nonce + 1
unfolding get_expected_evm_nonce insert_entry
get_expected_evm_nonce-admitted m tx bytes hash committed_nonce k b e = omega (
  arith,
  e,
  b,
  next_nonce tx.nonce b,
  get_address_nonce-after_all m.evm_pool tx.caller,
  get_address_nonce-after_all (insert_entry m.evm_pool (entry_of m tx bytes hash)).1 tx.caller,
  after_all-insert_key (tx.gas_price, m.evm_pool.next_order) (entry_of m tx bytes hash)
      m.evm_pool.entries (fresh_order tx.gas_price m.evm_pool.next_order m.evm_pool.entries k.1),
)

ok_is_not_err : (h : ℕ) (e : MempoolError) → Path (Result MempoolError ℕ) (err e) (ok h) → ⊥
ok_is_not_err h e p = ground (arith, p)

ok_value : {a b : ℕ} → Path (Result MempoolError ℕ) (ok a) (ok b) → a ≡ b
ok_value {a} p = ap (λ r. elim r [ ok c ↦ c | err e ↦ a ]) p

module _ (serialize : EvmTransaction → Result (List ℕ) (List ℕ)) (keccak256 : List ℕ → ℕ) where
  -- A transaction that is accepted raises the nonce that its sender's next one must have to one
  -- above its own.
  pub insert_evm_tx_with_state_next :
      (m : Mempool) (tx : EvmTransaction) (committed_nonce balance hash : ℕ)
      → IsPool m.evm_pool
      → tx.nonce + 1 < 2 ^ 64
      → (insert_evm_tx_with_state serialize keccak256 m tx committed_nonce balance).0 ≡ ok hash
      → let (_, after) =
          insert_evm_tx_with_state serialize keccak256 m tx committed_nonce balance in
        get_expected_evm_nonce after tx.caller committed_nonce ≡ tx.nonce + 1
  insert_evm_tx_with_state_next m tx committed_nonce balance hash k b e =
      elim (with_state-cases serialize keccak256 m tx committed_nonce balance) [
        | inl (c, fails) ↦ absurd (ok_is_not_err hash c (sym (ap (λ r. r.0) fails) ∙ e))
        | inr (nonce, passes) ↦ elim (insert_evm_tx-cases serialize keccak256 m tx) [
          | inl (c, fails) ↦
              absurd (ok_is_not_err hash _ (sym (ap (λ r. r.0) (passes ∙ fails)) ∙ e))
          | inr (bytes, hashed) ↦ elim (insert_hashed-cases m tx bytes (keccak256 bytes)) [
            | inl (c, fails) ↦
                absurd (ok_is_not_err hash c (sym (ap (λ r. r.0) (passes ∙ hashed.1 ∙ fails)) ∙ e))
            | inr fits ↦
                subst
                  (λ (r : Result MempoolError ℕ × Mempool).
                    get_expected_evm_nonce r.1 tx.caller committed_nonce ≡ tx.nonce + 1)
                  (sym (passes ∙ hashed.1 ∙ fits.1.1.1.1))
                  (get_expected_evm_nonce-admitted m tx bytes (keccak256 bytes) committed_nonce k b
                    nonce)
          ]
        ]
      ]

  known_is_duplicate :
      (m : Mempool) (tx : EvmTransaction) (bytes : List ℕ)
      → serialize tx ≡ ok bytes
      → member (keccak256 bytes) m.known_txs ≡ true
      → insert_evm_tx serialize keccak256 m tx ≡ (err (duplicate (keccak256 bytes)), m)
  unfolding insert_evm_tx insert_hashed
  known_is_duplicate m tx bytes e k = rw (insert_evm_tx, e, insert_hashed, k) refl

  -- A transaction that was accepted is a duplicate from then on, also when a later block has
  -- passed its lifetime and it was taken out of the pool.
  pub insert_evm_tx_after_expiry :
      (m : Mempool) (tx : EvmTransaction) (block hash : ℕ)
      → (insert_evm_tx serialize keccak256 m tx).0 ≡ ok hash
      → let (_, after) = insert_evm_tx serialize keccak256 m tx in
        let (_, pruned) = prune_expired (set_current_block after block) in
        insert_evm_tx serialize keccak256 pruned tx ≡ (err (duplicate hash), pruned)
  unfolding prune_expired set_current_block
  insert_evm_tx_after_expiry m tx block hash e =
      elim (insert_evm_tx-cases serialize keccak256 m tx) [
        | inl (c, fails) ↦ absurd (ok_is_not_err hash _ (sym (ap (λ r. r.0) fails) ∙ e))
        | inr (bytes, hashed) ↦ elim (insert_hashed-cases m tx bytes (keccak256 bytes)) [
          | inl (c, fails) ↦
              absurd (ok_is_not_err hash c (sym (ap (λ r. r.0) (hashed.1 ∙ fails)) ∙ e))
          | inr fits ↦
              subst
                (λ (r : Result MempoolError ℕ × Mempool).
                  let (_, pruned) = prune_expired (set_current_block r.1 block) in
                  insert_evm_tx serialize keccak256 pruned tx ≡ (err (duplicate hash), pruned))
                (sym (hashed.1 ∙ fits.1.1.1.1))
                (known_is_duplicate _ tx bytes hashed.0 (included (keccak256 bytes) m.known_txs)
                  ∙ ap
                      (λ h. (
                        err (duplicate h),
                        (prune_expired
                            (set_current_block (admitted m tx bytes (keccak256 bytes)) block)).1,
                      ))
                      (ok_value (sym (ap (λ r. r.0) (hashed.1 ∙ fits.1.1.1.1)) ∙ e)))
        ]
      ]
