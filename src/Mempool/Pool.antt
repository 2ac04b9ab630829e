-- ===== src/Mempool/Pool.antt =====
-- `Mempool` of crates/mempool/src/pool.rs. The serialisation of a transaction and the hash of its
-- bytes are parameters.
use call_node.Prelude.{
  ℕ, max, not, List, [], ◌∷◌, Option, none, some, ltb, leb, ◌==◌, if◌then◌else◌, length,
  saturating_add, saturating_mul, u64_max, u128_max, Dict, lookup, insert, member, include, exclude,
  nat_key, Result, ok, err, ascii,
}
use call_node.Mempool.Types.{
  PoolKind, MempoolEntry, MempoolConfig, EvmTransaction, MempoolError, Mempool, PoolStats,
}
use MempoolError.{
  duplicate, pool_full, address_limit_reached, fee_too_low, invalid_nonce, insufficient_balance,
  generic,
}
use call_node.Mempool.Priority.{
  default_limits, empty_pool, len, get_address_nonce, insert_entry, remove_entry, drain_sorted,
  remove_expired, count_per_address,
}

abbrev pub default_config : MempoolConfig
default_config = record { min_fee = 1000; min_gas_price = 1; max_gas_limit = 10000000 }

unfoldable pub new_mempool : Mempool
new_mempool = record {
  evm_pool = empty_pool;
  known_txs = [];
  limits = default_limits;
  config = default_config;
  current_block = 0;
  base_fee = 1;
  expected_nonces = [];
}

unfoldable pub set_current_block : Mempool → ℕ → Mempool
set_current_block m block = record m { current_block = block }

unfoldable pub set_base_fee : Mempool → ℕ → Mempool
set_base_fee m fee = record m { base_fee = fee }

-- The entry of a transaction with the hash of its bytes.
abbrev pub entry_of : Mempool → EvmTransaction → List ℕ → ℕ → MempoolEntry
entry_of m tx bytes h = record {
  hash = h;
  score = tx.gas_price;
  sender = tx.caller;
  nonce = tx.nonce;
  kind = PoolKind.evm;
  data_bytes = bytes;
  entered_at_block = m.current_block;
}

-- From the computed hash on.
unfoldable pub insert_hashed :
    Mempool → EvmTransaction → List ℕ → ℕ → Result MempoolError ℕ × Mempool
unfolding count_per_address insert_entry
insert_hashed m tx bytes hash =
    let min_gas_price = max m.config.min_gas_price m.base_fee in
    let addr_count = count_per_address m.evm_pool tx.caller in
    if member hash m.known_txs
    then (err (duplicate hash), m)
    else if ltb tx.gas_price min_gas_price
    then (err (fee_too_low tx.gas_price min_gas_price), m)
    else if leb m.limits.max_per_address addr_count
    then (err (address_limit_reached tx.caller addr_count m.limits.max_per_address), m)
    else if leb m.limits.max_evm_txs (len m.evm_pool)
    then (err (pool_full (ascii "evm") (len m.evm_pool) m.limits.max_evm_txs), m)
    else (
      ok hash,
      record m {
        evm_pool = (insert_entry m.evm_pool (entry_of m tx bytes hash)).1;
        known_txs = include hash m.known_txs;
      },
    )

unfoldable pub get_expected_evm_nonce : Mempool → ℕ → ℕ → ℕ
unfolding get_address_nonce
get_expected_evm_nonce m sender committed_nonce =
    max committed_nonce (get_address_nonce m.evm_pool sender)

module _ (serialize : EvmTransaction → Result (List ℕ) (List ℕ)) (keccak256 : List ℕ → ℕ) where
  unfoldable pub insert_evm_tx : Mempool → EvmTransaction → Result MempoolError ℕ × Mempool
  unfolding insert_hashed
  insert_evm_tx m tx = elim (serialize tx) [
    | err e ↦ (err (generic e), m)
    | ok bytes ↦ insert_hashed m tx bytes (keccak256 bytes)
  ]

  unfoldable pub insert_evm_tx_with_state :
      Mempool → EvmTransaction → ℕ → ℕ → Result MempoolError ℕ × Mempool
  unfolding insert_evm_tx get_expected_evm_nonce
  insert_evm_tx_with_state m tx committed_nonce balance =
      let expected = get_expected_evm_nonce m tx.caller committed_nonce in
      let max_gas_cost = saturating_mul u128_max tx.gas_price tx.gas_limit in
      if not (tx.nonce == expected)
      then (err (invalid_nonce expected tx.nonce), m)
      else if ltb balance max_gas_cost
      then (err (insufficient_balance max_gas_cost balance), m)
      else insert_evm_tx m tx

unfoldable pub select_transactions : Mempool → List MempoolEntry
unfolding drain_sorted
select_transactions m = drain_sorted m.evm_pool

unfoldable pub prune_expired : Mempool → ℕ × Mempool
unfolding remove_expired
prune_expired m =
    let (count, pool) = remove_expired m.evm_pool m.current_block m.limits.lifetime_blocks in
    (count, record m { evm_pool = pool })

-- The nonces after the entry that was removed, if any.
abbrev pub note_confirmed : Option MempoolEntry → Dict ℕ ℕ → Dict ℕ ℕ
note_confirmed none nonces = nonces
note_confirmed (some e) nonces = insert e.sender (saturating_add u64_max e.nonce 1) nonces

unfoldable pub confirm_transaction : Mempool → ℕ → Mempool
unfolding remove_entry
confirm_transaction m hash =
    let (entry, pool) = remove_entry m.evm_pool hash in
    record m {
      evm_pool = pool;
      expected_nonces = note_confirmed entry m.expected_nonces;
      known_txs = exclude hash m.known_txs;
    }

unfoldable pub confirm_transactions : Mempool → List ℕ → Mempool
unfolding confirm_transaction
confirm_transactions m [] = m
confirm_transactions m (hash ∷ hashes) = confirm_transactions (confirm_transaction m hash) hashes

abbrev pub nonce_or_zero : Option ℕ → ℕ
nonce_or_zero none = 0
nonce_or_zero (some n) = n

unfoldable pub increment_nonce : Mempool → ℕ → Mempool
increment_nonce m sender = record m {
  expected_nonces =
      insert sender (saturating_add u64_max (nonce_or_zero (lookup sender m.expected_nonces)) 1)
        m.expected_nonces;
}

abbrev pub total_pending : Mempool → ℕ
total_pending m = len m.evm_pool

abbrev pub pool_stats : Mempool → PoolStats
pool_stats m = record { evm_count = len m.evm_pool; known_tx_count = length m.known_txs }
