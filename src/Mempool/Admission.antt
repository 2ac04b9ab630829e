-- ===== src/Mempool/Admission.antt =====
-- What the pool of crates/mempool/src/pool.rs keeps true.
use call_node.Prelude.{
  ℕ, ◌+◌, ◌^◌, ◌<◌, ◌≤◌, ◌≡◌, refl, sym, subst, false, List, arith, ltb, leb, ◌==◌, max, All,
  Bool-cases, inl, inr, ◌⊎◌, member, include, nat_key, ascii, ==_iff, Result, ok, err,
}
use call_node.Mempool.Types.{MempoolEntry, EvmTransaction, MempoolError, Mempool}
use MempoolError.{duplicate, fee_too_low, address_limit_reached, pool_full}
use call_node.Mempool.Priority.{
  key_beq, insert_key, insert_entry, count_per_address, count_sender, len,
}
use call_node.Mempool.Pool.{insert_hashed, entry_of}
use call_node.Mempool.Order.{IsPool}
use call_node.Mempool.Entries.{insert_entry-IsPool, fresh_order}
use call_node.Mempool.Hashes.{
  HasDistinctHashes, IsKnown, unknown_is_fresh, insert_key-HasDistinctHashes, IsKnown-include,
  included,
}
use call_node.Mempool.Entries.{All-insert_key}
use call_node.Mempool.Bounds.{one_of, insert_key-counts}

-- The entries are in order, their hashes known and different, and the limits kept.
pub record IsMempool (m : Mempool) : Type 0 where
  pub in_order : IsPool m.evm_pool
  pub known : All (IsKnown m.known_txs) m.evm_pool.entries
  pub distinct : HasDistinctHashes m.evm_pool.entries
  pub bounded : len m.evm_pool ≤ m.limits.max_evm_txs
  pub each_bounded : (a : ℕ) → count_sender a m.evm_pool.entries ≤ m.limits.max_per_address

-- The pool with the transaction.
abbrev pub admitted : Mempool → EvmTransaction → List ℕ → ℕ → Mempool
admitted m tx bytes hash = record m {
  evm_pool = (insert_entry m.evm_pool (entry_of m tx bytes hash)).1;
  known_txs = include hash m.known_txs;
}

-- An insertion fails and changes nothing, or the transaction is new, pays the price and fits.
pub insert_hashed-cases :
    (m : Mempool) (tx : EvmTransaction) (bytes : List ℕ) (hash : ℕ)
    → ((e : MempoolError) × (insert_hashed m tx bytes hash ≡ (err e, m)))
      ⊎ ((member hash m.known_txs ≡ false)
          × ((max m.config.min_gas_price m.base_fee ≤ tx.gas_price)
              × ((count_sender tx.caller m.evm_pool.entries < m.limits.max_per_address)
                  × ((len m.evm_pool < m.limits.max_evm_txs)
                      × (insert_hashed m tx bytes hash ≡ (ok hash, admitted m tx bytes hash))))))
unfolding insert_hashed count_per_address
insert_hashed-cases m tx bytes hash = elim (Bool-cases (member hash m.known_txs)) [
  | inl again ↦ inl (duplicate hash, rw (insert_hashed, again) refl)
  | inr first ↦ elim (Bool-cases (ltb tx.gas_price (max m.config.min_gas_price m.base_fee))) [
    | inl low ↦ inl (
      fee_too_low tx.gas_price (max m.config.min_gas_price m.base_fee),
      rw (insert_hashed, first, low) refl,
    )
    | inr pays ↦
        elim (Bool-cases
          (leb m.limits.max_per_address (count_sender tx.caller m.evm_pool.entries))) [
            | inl many ↦ inl (
              address_limit_reached tx.caller (count_sender tx.caller m.evm_pool.entries)
                  m.limits.max_per_address,
              rw (insert_hashed, first, pays, many) refl,
            )
            | inr few ↦ elim (Bool-cases (leb m.limits.max_evm_txs (len m.evm_pool))) [
              | inl full ↦ inl (
                pool_full (ascii "evm") (len m.evm_pool) m.limits.max_evm_txs,
                rw (insert_hashed, first, pays, few, full) refl,
              )
              | inr room ↦ inr (
                first,
                (
                  ground arith,
                  (ground arith, (ground arith, rw (insert_hashed, first, pays, few, room) refl)),
                ),
              )
            ]
          ]
  ]
]

one_of_bounds :
    (a : ℕ) (e : MempoolEntry) → (one_of a e ≤ 1) × ((e.sender == a) ≡ false → one_of a e ≡ 0)
one_of_bounds a e = (ground arith, λ h. ground (arith, h))

admitted-IsMempool :
    (m : Mempool) (tx : EvmTransaction) (bytes : List ℕ) (hash : ℕ)
    → m.evm_pool.next_order + 1 < 2 ^ 64
    → member hash m.known_txs ≡ false
    → count_sender tx.caller m.evm_pool.entries < m.limits.max_per_address
    → len m.evm_pool < m.limits.max_evm_txs
    → IsMempool m
    → IsMempool (admitted m tx bytes hash)
unfolding insert_entry
admitted-IsMempool m tx bytes hash o n c l v = record {
  in_order = insert_entry-IsPool m.evm_pool (entry_of m tx bytes hash) o v.in_order;
  known =
      All-insert_key (IsKnown (include hash m.known_txs)) _ _ m.evm_pool.entries fresh
        (included hash m.known_txs) (IsKnown-include hash m.known_txs m.evm_pool.entries v.known);
  distinct =
      insert_key-HasDistinctHashes _ _ m.evm_pool.entries fresh
        (unknown_is_fresh hash m.known_txs m.evm_pool.entries n v.known) v.distinct;
  bounded =
      omega
        (arith, l, (insert_key-counts _ (entry_of m tx bytes hash) m.evm_pool.entries 0 fresh).0);
  each_bounded = sender_bounded;
}
  where
    fresh : All (λ x. key_beq (tx.gas_price, m.evm_pool.next_order) x.0 ≡ false) m.evm_pool.entries
    fresh = fresh_order tx.gas_price m.evm_pool.next_order m.evm_pool.entries v.in_order.1

    e : MempoolEntry
    e = entry_of m tx bytes hash

    sender_bounded :
        (a : ℕ)
        → count_sender a (insert_key (tx.gas_price, m.evm_pool.next_order) e m.evm_pool.entries)
          ≤ m.limits.max_per_address
    sender_bounded a = elim (Bool-cases (tx.caller == a)) [
      | inl same ↦
          subst
            (λ b.
              count_sender b (insert_key (tx.gas_price, m.evm_pool.next_order) e m.evm_pool.entries)
              ≤ m.limits.max_per_address)
            ((==_iff tx.caller a).0 same)
            (omega (
              arith,
              c,
              (one_of_bounds tx.caller e).0,
              (insert_key-counts _ e m.evm_pool.entries tx.caller fresh).1,
            ))
      | inr differ ↦ omega (
        arith,
        v.each_bounded a,
        (one_of_bounds a e).1 differ,
        (insert_key-counts _ e m.evm_pool.entries a fresh).1,
      )
    ]

-- An insertion keeps the pool well-formed.
pub insert_hashed-IsMempool :
    (m : Mempool) (tx : EvmTransaction) (bytes : List ℕ) (hash : ℕ)
    → m.evm_pool.next_order + 1 < 2 ^ 64
    → IsMempool m
    → IsMempool (insert_hashed m tx bytes hash).1
insert_hashed-IsMempool m tx bytes hash o v = elim (insert_hashed-cases m tx bytes hash) [
  | inl (e, fails) ↦ subst (λ (r : Result MempoolError ℕ × Mempool). IsMempool r.1) (sym fails) v
  | inr fits ↦
      subst (λ (r : Result MempoolError ℕ × Mempool). IsMempool r.1) (sym fits.1.1.1.1)
        (admitted-IsMempool m tx bytes hash o fits.0 fits.1.1.0 fits.1.1.1.0 v)
]
