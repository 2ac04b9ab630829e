-- ===== src/Mempool/Serving.antt =====
-- The calls of the pool of crates/mempool/src/pool.rs, in any order.
use call_node.Prelude.{
  ℕ, ◌+◌, ◌^◌, ◌<◌, ◌≤◌, ◌≡◌, refl, sym, ap, ◌∙◌, subst, List, [], ◌∷◌, arith, ltb, ◌==◌,
  saturating_mul, u128_max, Bool-cases, Result-cases, ==_iff, inl, inr, ◌⊎◌, nat_key, Result, ok,
  err,
}
use call_node.Mempool.Types.{EvmTransaction, MempoolError, Mempool}
use MempoolError.{generic, invalid_nonce, insufficient_balance}
use call_node.Mempool.Priority.{insert_entry, remove_expired}
use call_node.Mempool.Pool.{
  new_mempool, set_current_block, set_base_fee, insert_hashed, insert_evm_tx,
  insert_evm_tx_with_state, get_expected_evm_nonce, prune_expired, confirm_transaction,
  confirm_transactions, increment_nonce,
}
use call_node.Mempool.Admission.{IsMempool, insert_hashed-cases, insert_hashed-IsMempool}
use call_node.Mempool.Hashes.{}
use call_node.Mempool.Removal.{
  prune_expired-IsMempool, confirm_transactions-IsMempool, remove_entry-cases,
}

-- The pool is well-formed, and no more orders of arrival were given out than the bound.
abbrev pub HasServed : ℕ → Mempool → Type 0
HasServed n m = IsMempool m × (m.evm_pool.next_order ≤ n)

insert_hashed-HasServed :
    (n : ℕ) (m : Mempool) (tx : EvmTransaction) (bytes : List ℕ) (hash : ℕ)
    → n + 1 < 2 ^ 64
    → HasServed n m
    → HasServed (n + 1) (insert_hashed m tx bytes hash).1
unfolding insert_entry
insert_hashed-HasServed n m tx bytes hash b v = (
  insert_hashed-IsMempool m tx bytes hash (omega (arith, v.1, b)) v.0,
  elim (insert_hashed-cases m tx bytes hash) [
    | inl (e, fails) ↦ subst counted (sym fails) (omega (arith, v.1))
    | inr fits ↦ subst counted (sym fits.1.1.1.1) (omega (arith, v.1, b))
  ],
)
  where
    counted : Result MempoolError ℕ × Mempool → Type 0
    counted r = r.1.evm_pool.next_order ≤ n + 1

-- What the pool's invariant does not read may change.
unread-IsMempool :
    (m : Mempool) (block fee : ℕ) (nonces : List (ℕ × ℕ))
    → IsMempool m
    → IsMempool (record m { current_block = block; base_fee = fee; expected_nonces = nonces })
unread-IsMempool m block fee nonces v = record {
  in_order = v.in_order;
  known = v.known;
  distinct = v.distinct;
  bounded = v.bounded;
  each_bounded = v.each_bounded;
}

confirm_transactions-next_order :
    (m : Mempool) (hashes : List ℕ)
    → (confirm_transactions m hashes).evm_pool.next_order ≡ m.evm_pool.next_order
unfolding confirm_transactions confirm_transaction
confirm_transactions-next_order m [] = refl
confirm_transactions-next_order m (hash ∷ hashes) =
    confirm_transactions-next_order (confirm_transaction m hash) hashes
    ∙ elim (remove_entry-cases m.evm_pool hash) [
      | inl missing ↦ ap (λ r. r.1.next_order) missing.1
      | inr found ↦ ap (λ r. r.1.next_order) found.1.1
    ]

module _ (serialize : EvmTransaction → Result (List ℕ) (List ℕ)) (keccak256 : List ℕ → ℕ) where
  pub insert_evm_tx-cases :
      (m : Mempool) (tx : EvmTransaction)
      → ((e : List ℕ) × (insert_evm_tx serialize keccak256 m tx ≡ (err (generic e), m)))
        ⊎ ((bytes : List ℕ) × ((serialize tx ≡ ok bytes)
              × (insert_evm_tx serialize keccak256 m tx
                  ≡ insert_hashed m tx bytes (keccak256 bytes))))
  unfolding insert_evm_tx
  insert_evm_tx-cases m tx = elim (Result-cases (serialize tx)) [
    | inl (bytes, e) ↦ inr (bytes, (e, rw (insert_evm_tx, e) refl))
    | inr (text, e) ↦ inl (text, rw (insert_evm_tx, e) refl)
  ]

  -- Calls, with the number of insertions.
  pub data Served : ℕ → Mempool → Type 0 where
    start : Served 0 new_mempool
    insertion :
        {n : ℕ} {m : Mempool} (tx : EvmTransaction)
        → Served n m
        → Served (n + 1) (insert_evm_tx serialize keccak256 m tx).1
    checked_insertion :
        {n : ℕ} {m : Mempool} (tx : EvmTransaction) (committed_nonce balance : ℕ)
        → Served n m
        → Served
            (n + 1)
            (insert_evm_tx_with_state serialize keccak256 m tx committed_nonce balance).1
    pruning : {n : ℕ} {m : Mempool} → Served n m → Served n (prune_expired m).1
    confirmation :
        {n : ℕ} {m : Mempool} (hashes : List ℕ)
        → Served n m
        → Served n (confirm_transactions m hashes)
    new_block :
        {n : ℕ} {m : Mempool} (block : ℕ) → Served n m → Served n (set_current_block m block)
    new_fee : {n : ℕ} {m : Mempool} (fee : ℕ) → Served n m → Served n (set_base_fee m fee)
    inclusion :
        {n : ℕ} {m : Mempool} (sender : ℕ) → Served n m → Served n (increment_nonce m sender)

  insert_evm_tx-HasServed :
      (n : ℕ) (m : Mempool) (tx : EvmTransaction)
      → n + 1 < 2 ^ 64
      → HasServed n m
      → HasServed (n + 1) (insert_evm_tx serialize keccak256 m tx).1
  insert_evm_tx-HasServed n m tx b v = elim (insert_evm_tx-cases m tx) [
    | inl (e, fails) ↦
        subst (λ (r : Result MempoolError ℕ × Mempool). HasServed (n + 1) r.1) (sym fails)
          (v.0, omega (arith, v.1))
    | inr (bytes, e) ↦
        subst (λ (r : Result MempoolError ℕ × Mempool). HasServed (n + 1) r.1) (sym e.1)
          (insert_hashed-HasServed n m tx bytes (keccak256 bytes) b v)
  ]

  pub with_state-cases :
      (m : Mempool) (tx : EvmTransaction) (committed_nonce balance : ℕ)
      → ((e : MempoolError) × (insert_evm_tx_with_state serialize keccak256 m tx committed_nonce
              balance
            ≡ (err e, m)))
        ⊎ ((tx.nonce ≡ get_expected_evm_nonce m tx.caller committed_nonce)
            × (insert_evm_tx_with_state serialize keccak256 m tx committed_nonce balance
                ≡ insert_evm_tx serialize keccak256 m tx))
  unfolding insert_evm_tx_with_state
  with_state-cases m tx committed_nonce balance = elim (Bool-cases (tx.nonce == expected)) [
    | inr other ↦ inl (invalid_nonce expected tx.nonce, rw (insert_evm_tx_with_state, other) refl)
    | inl next ↦ elim (Bool-cases (ltb balance cost)) [
      | inl poor ↦
          inl (insufficient_balance cost balance, rw (insert_evm_tx_with_state, next, poor) refl)
      | inr pays ↦
          inr ((==_iff tx.nonce expected).0 next, rw (insert_evm_tx_with_state, next, pays) refl)
    ]
  ]
    where
      expected : ℕ
      expected = get_expected_evm_nonce m tx.caller committed_nonce

      cost : ℕ
      cost = saturating_mul u128_max tx.gas_price tx.gas_limit

  with_state-HasServed :
      (n : ℕ) (m : Mempool) (tx : EvmTransaction) (committed_nonce balance : ℕ)
      → n + 1 < 2 ^ 64
      → HasServed n m
      → HasServed
          (n + 1)
          (insert_evm_tx_with_state serialize keccak256 m tx committed_nonce balance).1
  with_state-HasServed n m tx committed_nonce balance b v =
      elim (with_state-cases m tx committed_nonce balance) [
        | inl (e, fails) ↦
            subst (λ (r : Result MempoolError ℕ × Mempool). HasServed (n + 1) r.1) (sym fails)
              (v.0, omega (arith, v.1))
        | inr e ↦
            subst (λ (r : Result MempoolError ℕ × Mempool). HasServed (n + 1) r.1) (sym e.1)
              (insert_evm_tx-HasServed n m tx b v)
      ]

  -- After any calls of which fewer than 2 ^ 64 are insertions, the entries are in the order of
  -- their keys, their hashes are known and different, and neither the limit of the pool nor that
  -- of a sender is passed.
  pub Served-HasServed : (n : ℕ) (m : Mempool) → n < 2 ^ 64 → Served n m → HasServed n m
  unfolding new_mempool set_current_block set_base_fee increment_nonce prune_expired remove_expired
  Served-HasServed n m b start = (
    record {
      in_order = (tt, tt);
      known = tt;
      distinct = tt;
      bounded = omega arith;
      each_bounded = λ a. omega arith;
    },
    omega arith,
  )
  Served-HasServed n m b (insertion tx s) =
      insert_evm_tx-HasServed _ _ tx b (Served-HasServed _ _ (omega (arith, b)) s)
  Served-HasServed n m b (checked_insertion tx c l s) =
      with_state-HasServed _ _ tx c l b (Served-HasServed _ _ (omega (arith, b)) s)
  Served-HasServed n m b (pruning s) =
      let v = Served-HasServed _ _ b s in (prune_expired-IsMempool _ v.0, v.1)
  Served-HasServed n m b (confirmation hashes s) =
      let v = Served-HasServed _ _ b s in
      (
        confirm_transactions-IsMempool _ hashes v.0,
        omega (arith, v.1, confirm_transactions-next_order _ hashes),
      )
  Served-HasServed n m b (new_block block s) =
      let v = Served-HasServed _ _ b s in (unread-IsMempool _ block _ _ v.0, v.1)
  Served-HasServed n m b (new_fee fee s) =
      let v = Served-HasServed _ _ b s in (unread-IsMempool _ _ fee _ v.0, v.1)
  Served-HasServed n m b (inclusion sender s) =
      let v = Served-HasServed _ _ b s in (unread-IsMempool _ _ _ _ v.0, v.1)
