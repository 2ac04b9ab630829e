-- ===== src/Mempool/Types.antt =====
-- The types of crates/mempool/src/priority.rs and crates/mempool/src/pool.rs, and
-- `EvmTransaction` of crates/evm/src/executor.rs. The time of day at which an entry came is
-- not kept: nothing reads it.
use call_node.Prelude.{ℕ, List, Dict, Option}

pub data PoolKind : Type 0 where
  evm : PoolKind

pub record PoolLimits : Type 0 where
  pub max_evm_txs : ℕ
  pub max_per_address : ℕ
  pub lifetime_blocks : ℕ

pub record MempoolEntry : Type 0 where
  pub hash : ℕ
  pub score : ℕ
  pub sender : ℕ
  pub nonce : ℕ
  pub kind : PoolKind
  pub data_bytes : List ℕ
  pub entered_at_block : ℕ

-- The entries of the BTreeMap with their keys, the score and the order of arrival, in the order
-- of the keys.
pub record PriorityPool : Type 0 where
  pub entries : List ((ℕ × ℕ) × MempoolEntry)
  pub next_order : ℕ

pub record MempoolConfig : Type 0 where
  pub min_fee : ℕ
  pub min_gas_price : ℕ
  pub max_gas_limit : ℕ

pub record EvmTransaction : Type 0 where
  pub caller : ℕ
  pub nonce : ℕ
  pub gas_limit : ℕ
  pub gas_price : ℕ
  pub max_priority_fee : Option ℕ
  pub tx_type : ℕ
  pub to_address : Option ℕ
  pub value : ℕ
  pub payload : List ℕ
  pub chain_id : ℕ

pub data MempoolError : Type 0 where
  duplicate : (hash : ℕ) → MempoolError
  pool_full : (pool : List ℕ) (count most : ℕ) → MempoolError
  address_limit_reached : (address count most : ℕ) → MempoolError
  fee_too_low : (fee least : ℕ) → MempoolError
  gas_limit_exceeded : (gas most : ℕ) → MempoolError
  invalid_nonce : (expected got : ℕ) → MempoolError
  insufficient_balance : (required got : ℕ) → MempoolError
  not_found : (hash : ℕ) → MempoolError
  generic : List ℕ → MempoolError

pub record Mempool : Type 0 where
  pub evm_pool : PriorityPool
  pub known_txs : List ℕ
  pub limits : PoolLimits
  pub config : MempoolConfig
  pub current_block : ℕ
  pub base_fee : ℕ
  pub expected_nonces : Dict ℕ ℕ

pub record PoolStats : Type 0 where
  pub evm_count : ℕ
  pub known_tx_count : ℕ
