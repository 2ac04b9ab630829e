-- ===== src/Mempool/Removal.antt =====
-- Confirmation and expiry in crates/mempool/src/pool.rs.
use call_node.Prelude.{
  ℕ, ◌≡◌, refl, sym, subst, List, [], ◌∷◌, arith, Option-cases, inl, inr, ◌⊎◌, Option, none, some,
  exclude, nat_key,
}
use call_node.Mempool.Types.{MempoolEntry, PriorityPool, Mempool}
use MempoolError.{}
use call_node.Mempool.Priority.{
  Keyed, remove_key, remove_keys, remove_expired, expired_keys, remove_entry, find_hash,
}
use call_node.Mempool.Pool.{
  note_confirmed, prune_expired, confirm_transaction, confirm_transactions,
}
use call_node.Mempool.Order.{}
use call_node.Mempool.Entries.{remove_keys-IsPool}
use call_node.Mempool.Hashes.{
  IsKnown, remove_key-HasDistinctHashes, All-removed, remove_found_other, find_hash-none,
}
use call_node.Mempool.Entries.{All-remove_key}
use call_node.Mempool.Bounds.{remove_key-counts}
use call_node.Mempool.Admission.{IsMempool}

-- The pool with other entries.
abbrev with_entries : Mempool → List Keyed → Mempool
with_entries m es = record m { evm_pool = record m.evm_pool { entries = es } }

dropped-IsMempool :
    (m : Mempool) (k : ℕ × ℕ) (es : List Keyed)
    → IsMempool (with_entries m es)
    → IsMempool (with_entries m (remove_key k es))
dropped-IsMempool m k es v = record {
  in_order = remove_keys-IsPool m.evm_pool.next_order (k ∷ []) es v.in_order.0 v.in_order.1;
  known = All-remove_key (IsKnown m.known_txs) k es v.known;
  distinct = remove_key-HasDistinctHashes k es v.distinct;
  bounded = omega (arith, v.bounded, (remove_key-counts k es 0).0);
  each_bounded = λ a. omega (arith, v.each_bounded a, (remove_key-counts k es a).1);
}

all_dropped-IsMempool :
    (m : Mempool) (ks : List (ℕ × ℕ)) (es : List Keyed)
    → IsMempool (with_entries m es)
    → IsMempool (with_entries m (remove_keys ks es))
all_dropped-IsMempool m [] es v = v
all_dropped-IsMempool m (k ∷ ks) es v =
    all_dropped-IsMempool m ks (remove_key k es) (dropped-IsMempool m k es v)

pub prune_expired-IsMempool : (m : Mempool) → IsMempool m → IsMempool (prune_expired m).1
unfolding prune_expired remove_expired
prune_expired-IsMempool m v =
    all_dropped-IsMempool m
      (expired_keys m.current_block m.limits.lifetime_blocks m.evm_pool.entries) m.evm_pool.entries
      (renew v)
  where
    renew : IsMempool m → IsMempool (with_entries m m.evm_pool.entries)
    renew w = record {
      in_order = w.in_order;
      known = w.known;
      distinct = w.distinct;
      bounded = w.bounded;
      each_bounded = w.each_bounded;
    }

pub remove_entry-cases :
    (p : PriorityPool) (hash : ℕ)
    → ((find_hash hash p.entries ≡ none) × (remove_entry p hash ≡ (none, p)))
      ⊎ ((found : Keyed) × ((find_hash hash p.entries ≡ some found)
            × (remove_entry p hash
                ≡ (some found.1, record p { entries = remove_key found.0 p.entries }))))
unfolding remove_entry
remove_entry-cases p hash = elim (Option-cases (find_hash hash p.entries)) [
  | inl missing ↦ inl (missing, rw (remove_entry, missing) refl)
  | inr (found, e) ↦ inr (found, (e, rw (remove_entry, e) refl))
]

-- The pool after the removal, with what the confirmation does beside it.
abbrev confirmed : Mempool → ℕ → Option MempoolEntry × PriorityPool → Mempool
confirmed m hash r = record m {
  evm_pool = r.1;
  expected_nonces = note_confirmed r.0 m.expected_nonces;
  known_txs = exclude hash m.known_txs;
}

confirm_transaction-IsMempool :
    (m : Mempool) (hash : ℕ) → IsMempool m → IsMempool (confirm_transaction m hash)
unfolding confirm_transaction
confirm_transaction-IsMempool m hash v = elim (remove_entry-cases m.evm_pool hash) [
  | inl missing ↦
      subst (λ r. IsMempool (confirmed m hash r)) (sym missing.1)
        (record {
          in_order = v.in_order;
          known =
              All-removed hash m.known_txs m.evm_pool.entries
                (find_hash-none hash m.evm_pool.entries missing.0) v.known;
          distinct = v.distinct;
          bounded = v.bounded;
          each_bounded = v.each_bounded;
        })
  | inr (found, e) ↦
      subst (λ r. IsMempool (confirmed m hash r)) (sym e.1)
        (record {
          in_order =
              remove_keys-IsPool m.evm_pool.next_order (found.0 ∷ []) m.evm_pool.entries
                v.in_order.0 v.in_order.1;
          known =
              All-removed hash m.known_txs (remove_key found.0 m.evm_pool.entries)
                (remove_found_other hash m.evm_pool.entries found v.in_order.0 v.distinct e.0)
                (All-remove_key (IsKnown m.known_txs) found.0 m.evm_pool.entries v.known);
          distinct = remove_key-HasDistinctHashes found.0 m.evm_pool.entries v.distinct;
          bounded = omega (arith, v.bounded, (remove_key-counts found.0 m.evm_pool.entries 0).0);
          each_bounded = λ a.
              omega (arith, v.each_bounded a, (remove_key-counts found.0 m.evm_pool.entries a).1);
        })
]

pub confirm_transactions-IsMempool :
    (m : Mempool) (hashes : List ℕ) → IsMempool m → IsMempool (confirm_transactions m hashes)
unfolding confirm_transactions
confirm_transactions-IsMempool m [] v = v
confirm_transactions-IsMempool m (hash ∷ hashes) v =
    confirm_transactions-IsMempool (confirm_transaction m hash) hashes
      (confirm_transaction-IsMempool m hash v)
