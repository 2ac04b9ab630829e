-- ===== src/Mempool/Tests.antt =====
-- A pool of two transactions, with a serialisation that writes the nonce and a hash that adds up.
use call_node.Prelude.{
  ℕ, ◌+◌, ◌≡◌, refl, List, [], ◌∷◌, none, some, map, arith, length, Result, ok, err,
}
use mathlib.Core.List.{Perm}
use call_node.Mempool.Types.{EvmTransaction, Mempool, MempoolEntry, MempoolError}
use MempoolError.{duplicate}
use call_node.Mempool.Priority.{Keyed, drain_sorted, remove_expired}
use call_node.Mempool.Pool.{new_mempool, insert_evm_tx, prune_expired, set_current_block}
use call_node.Mempool.Order.{IsRanked, drain_sorted-IsRanked}
use call_node.Mempool.Expiry.{unexpired, remove_expired-unexpired}
use call_node.Mempool.Serving.{HasServed, Served, Served-HasServed}
use call_node.Mempool.Nonces.{insert_evm_tx_after_expiry}

abbrev serialize : EvmTransaction → Result (List ℕ) (List ℕ)
serialize tx = ok (tx.nonce ∷ tx.caller ∷ [])

abbrev sum : List ℕ → ℕ
sum [] = 0
sum (b ∷ bs) = b + sum bs

abbrev cheap : EvmTransaction
cheap = record {
  caller = 5;
  nonce = 0;
  gas_limit = 21000;
  gas_price = 2;
  max_priority_fee = none;
  tx_type = 0;
  to_address = some 9;
  value = 100;
  payload = [];
  chain_id = 1;
}

abbrev dear : EvmTransaction
dear = record cheap { caller = 6; gas_price = 9 }

abbrev one_pending : Mempool
one_pending = (insert_evm_tx serialize sum new_mempool cheap).1

abbrev two_pending : Mempool
two_pending = (insert_evm_tx serialize sum one_pending dear).1

abbrev two_served : Served serialize sum 2 two_pending
two_served = Served.insertion dear (Served.insertion cheap Served.start)

Served-HasServed_example : HasServed 2 two_pending
Served-HasServed_example = Served-HasServed serialize sum 2 two_pending (omega arith) two_served

drain_sorted-IsRanked_example :
    (ranked : List Keyed) × (Perm ranked two_pending.evm_pool.entries
      × (IsRanked ranked × (drain_sorted two_pending.evm_pool ≡ map (λ k. k.1) ranked)))
unfolding insert_evm_tx new_mempool
drain_sorted-IsRanked_example =
    drain_sorted-IsRanked two_pending.evm_pool
      (((refl, tt), (tt, tt)), ((refl, omega arith), ((refl, omega arith), tt)))

-- The better paid transaction comes first.
dear_first : map (λ (e : MempoolEntry). e.score) (drain_sorted two_pending.evm_pool) ≡ 9 ∷ 2 ∷ []
unfolding insert_evm_tx new_mempool drain_sorted
dear_first = refl

remove_expired-unexpired_example :
    let (count, after) = remove_expired two_pending.evm_pool 80 72 in
    (after.entries ≡ unexpired 80 72 two_pending.evm_pool.entries)
    × (count + length after.entries ≡ length two_pending.evm_pool.entries)
unfolding insert_evm_tx new_mempool
remove_expired-unexpired_example =
    remove_expired-unexpired two_pending.evm_pool 80 72
      (((refl, tt), (tt, tt)), ((refl, omega arith), ((refl, omega arith), tt)))

insert_evm_tx_after_expiry_example :
    let (_, pruned) = prune_expired (set_current_block one_pending 80) in
    insert_evm_tx serialize sum pruned cheap ≡ (err (duplicate 5), pruned)
unfolding insert_evm_tx new_mempool
insert_evm_tx_after_expiry_example =
    insert_evm_tx_after_expiry serialize sum new_mempool cheap 80 5 refl

-- At that block the pool is empty.
expired_are_gone : (prune_expired (set_current_block one_pending 80)).1.evm_pool.entries ≡ []
unfolding insert_evm_tx new_mempool prune_expired set_current_block
expired_are_gone = refl
