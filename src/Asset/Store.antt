-- ===== src/Asset/Store.antt =====
-- crates/asset/src/lib.rs: balances, allowances and metadata in the storage of ASSET_ADDRESS.
use call_node.Prelude.{
  ℕ, ◌-◌, Bool, true, false, ◌&&◌, List, [], ◌∷◌, ◌++◌, ltb, ◌==◌, if◌then◌else◌, u128_max,
  checked_add, checked_sub, length, replicate, to_be_bytes, from_be_bytes, is_utf8,
}
use call_node.Storage.{
  M, return, throw_if, ok_or, ◌>>=◌, ◌>>◌, read, write, slot_balance, slot_allowance,
  slot_asset_meta, MetaKey, u256_to_u128, u256_to_u8, u256_to_address, u128_to_u256, u8_to_u256,
  address_to_u256,
}
use call_node.Asset.Types.{
  AssetError, AssetMeta, balance_overflow, insufficient_balance, asset_not_found, invalid_metadata,
  not_utf8, exceeds_32_bytes,
}

unfoldable pub read_balance : ℕ → ℕ → M AssetError ℕ
read_balance asset_id addr = do
  raw ← read (slot_balance asset_id addr)
  throw_if (ltb u128_max raw) balance_overflow
  return (u256_to_u128 raw)

unfoldable pub write_balance : ℕ → ℕ → ℕ → M AssetError (Unit {0})
write_balance asset_id addr amount = write (slot_balance asset_id addr) (u128_to_u256 amount)

unfoldable pub add_balance : ℕ → ℕ → ℕ → M AssetError (Unit {0})
unfolding read_balance write_balance
add_balance asset_id addr amount = do
  current ← read_balance asset_id addr
  new ← ok_or (checked_add u128_max current amount) balance_overflow
  write_balance asset_id addr new

unfoldable pub deduct_balance : ℕ → ℕ → ℕ → M AssetError (Unit {0})
unfolding read_balance write_balance
deduct_balance asset_id addr amount = do
  current ← read_balance asset_id addr
  new ← ok_or (checked_sub current amount) insufficient_balance
  write_balance asset_id addr new

unfoldable pub read_allowance : ℕ → ℕ → ℕ → M AssetError ℕ
read_allowance asset_id owner spender = do
  raw ← read (slot_allowance asset_id owner spender)
  throw_if (ltb u128_max raw) balance_overflow
  return (u256_to_u128 raw)

unfoldable pub write_allowance : ℕ → ℕ → ℕ → ℕ → M AssetError (Unit {0})
write_allowance asset_id owner spender amount =
    write (slot_allowance asset_id owner spender) (u128_to_u256 amount)

unfoldable pub load_meta_u256 : ℕ → MetaKey → M AssetError ℕ
load_meta_u256 asset_id key = read (slot_asset_meta asset_id key)

unfoldable pub load_meta_u128 : ℕ → MetaKey → M AssetError ℕ
unfolding load_meta_u256
load_meta_u128 asset_id key = do return (u256_to_u128 (← load_meta_u256 asset_id key))

unfoldable pub load_meta_u8 : ℕ → MetaKey → M AssetError ℕ
unfolding load_meta_u256
load_meta_u8 asset_id key = do return (u256_to_u8 (← load_meta_u256 asset_id key))

unfoldable pub load_meta_address : ℕ → MetaKey → M AssetError ℕ
unfolding load_meta_u256
load_meta_address asset_id key = do return (u256_to_address (← load_meta_u256 asset_id key))

-- The bytes in front of the first zero byte.
unfoldable pub before_zero : List ℕ → List ℕ
before_zero [] = []
before_zero (b ∷ bs) = if b == 0 then [] else b ∷ before_zero bs

unfoldable pub load_meta_string : ℕ → MetaKey → M AssetError (List ℕ)
unfolding load_meta_u256
load_meta_string asset_id key = do
  v ← load_meta_u256 asset_id key
  let bytes = before_zero (to_be_bytes 32 v)
  throw_if (if is_utf8 bytes then false else true) (invalid_metadata (not_utf8 key))
  return bytes

unfoldable pub store_meta_u256 : ℕ → MetaKey → ℕ → M AssetError (Unit {0})
store_meta_u256 asset_id key value = write (slot_asset_meta asset_id key) value

-- The 32 bytes of a short text, zeros behind it, as a word.
unfoldable pub text_word : List ℕ → ℕ
text_word value = from_be_bytes (value ++ replicate (32 - length value) 0)

unfoldable pub store_meta_string : ℕ → MetaKey → List ℕ → M AssetError (Unit {0})
store_meta_string asset_id key value = do
  throw_if (ltb 32 (length value)) (invalid_metadata (exceeds_32_bytes key (length value)))
  write (slot_asset_meta asset_id key) (text_word value)

abbrev is_empty : List ℕ → Bool
is_empty [] = true
is_empty (b ∷ bs) = false

unfoldable pub read_meta : ℕ → M AssetError AssetMeta
unfolding load_meta_string load_meta_u256 load_meta_u128 load_meta_u8 load_meta_address
read_meta asset_id = do
  symbol ← load_meta_string asset_id MetaKey.symbol
  issuer ← load_meta_address asset_id MetaKey.issuer
  throw_if (issuer == 0 && is_empty symbol) asset_not_found
  name ← load_meta_string asset_id MetaKey.name
  decimals ← load_meta_u8 asset_id MetaKey.decimals
  max_supply ← load_meta_u128 asset_id MetaKey.max_supply
  supply ← load_meta_u128 asset_id MetaKey.supply
  status ← load_meta_u8 asset_id MetaKey.status
  registered_at ← load_meta_u256 asset_id MetaKey.registered_at
  evm_contract ← load_meta_address asset_id MetaKey.evm_contract
  dominance ← load_meta_u8 asset_id MetaKey.dominance
  return (record {
    symbol = symbol;
    name = name;
    decimals = decimals;
    issuer = issuer;
    max_supply = max_supply;
    supply = supply;
    status = status;
    registered_at = registered_at;
    evm_contract = evm_contract;
    dominance = dominance;
  })

unfoldable pub write_meta : ℕ → AssetMeta → M AssetError (Unit {0})
unfolding store_meta_string store_meta_u256
write_meta asset_id meta = do
  store_meta_string asset_id MetaKey.symbol meta.symbol
  store_meta_string asset_id MetaKey.name meta.name
  store_meta_u256 asset_id MetaKey.decimals (u8_to_u256 meta.decimals)
  store_meta_u256 asset_id MetaKey.issuer (address_to_u256 meta.issuer)
  store_meta_u256 asset_id MetaKey.max_supply (u128_to_u256 meta.max_supply)
  store_meta_u256 asset_id MetaKey.supply (u128_to_u256 meta.supply)
  store_meta_u256 asset_id MetaKey.status (u8_to_u256 meta.status)
  store_meta_u256 asset_id MetaKey.registered_at meta.registered_at
  store_meta_u256 asset_id MetaKey.evm_contract (address_to_u256 meta.evm_contract)
  store_meta_u256 asset_id MetaKey.dominance (u8_to_u256 meta.dominance)
