-- ===== src/Asset/Registry.antt =====
-- crates/asset/src/lib.rs: registering assets, and the index from ERC-20 contracts to assets.
use call_node.Prelude.{
  ℕ, Bool, true, false, Option, none, some, List, ltb, ◌==◌, if◌then◌else◌, u64_max, checked_add,
}
use call_node.Storage.{
  M, return, throw_if, ok_or, ◌>>=◌, ◌>>◌, read, write, MetaKey, next_asset_id, erc20_binding_slot,
  u128_to_u256, u8_to_u256, address_to_u256, u64_to_u256,
}
use call_node.Asset.Types.{AssetError, asset_id_overflow, invalid_decimals, erc20_already_bound}
use call_node.Asset.Store.{store_meta_string, store_meta_u256, load_meta_u8}

abbrev pub call_asset_id : ℕ
call_asset_id = 1

-- What registering an asset is given.
pub record Registration : Type 0 where
  pub symbol : List ℕ
  pub name : List ℕ
  pub decimals : ℕ
  pub max_supply : ℕ
  pub issuer : ℕ
  pub registered_at : ℕ

unfoldable pub allocate_asset_id : M AssetError ℕ
allocate_asset_id = do
  raw ← read next_asset_id
  throw_if (ltb u64_max raw) asset_id_overflow
  let asset_id = if raw == 0 then 1 else raw
  next_id ← ok_or (checked_add u64_max asset_id 1) asset_id_overflow
  write next_asset_id next_id
  return asset_id

unfoldable pub write_base_meta : ℕ → Registration → M AssetError (Unit {0})
unfolding store_meta_string store_meta_u256
write_base_meta asset_id r = do
  store_meta_string asset_id MetaKey.symbol r.symbol
  store_meta_string asset_id MetaKey.name r.name
  store_meta_u256 asset_id MetaKey.decimals (u8_to_u256 r.decimals)
  store_meta_u256 asset_id MetaKey.issuer (address_to_u256 r.issuer)
  store_meta_u256 asset_id MetaKey.max_supply (u128_to_u256 r.max_supply)
  store_meta_u256 asset_id MetaKey.supply 0
  store_meta_u256 asset_id MetaKey.status 0
  store_meta_u256 asset_id MetaKey.compliance 0
  store_meta_u256 asset_id MetaKey.registered_at r.registered_at

unfoldable pub register : Registration → M AssetError ℕ
unfolding allocate_asset_id write_base_meta store_meta_u256
register r = do
  throw_if (ltb 18 r.decimals) (invalid_decimals r.decimals)
  asset_id ← allocate_asset_id
  write_base_meta asset_id r
  store_meta_u256 asset_id MetaKey.has_erc20 0
  return asset_id

unfoldable pub evm_contract_asset_id : ℕ → M AssetError (Option ℕ)
evm_contract_asset_id evm_contract = do
  raw ← read (erc20_binding_slot evm_contract)
  return (if raw == 0 then none else some raw)

unfoldable pub set_evm_contract_asset_id : ℕ → ℕ → M AssetError (Unit {0})
set_evm_contract_asset_id evm_contract asset_id =
    write (erc20_binding_slot evm_contract) (u64_to_u256 asset_id)

abbrev is_some {ℓ} : {A : Type ℓ} → Option A → Bool
is_some none = false
is_some (some _) = true

unfoldable pub register_erc20 : ℕ → Registration → M AssetError ℕ
unfolding allocate_asset_id write_base_meta store_meta_u256 evm_contract_asset_id
    set_evm_contract_asset_id
register_erc20 evm_contract r = do
  throw_if (ltb 18 r.decimals) (invalid_decimals r.decimals)
  bound ← evm_contract_asset_id evm_contract
  throw_if (is_some bound) (erc20_already_bound evm_contract)
  asset_id ← allocate_asset_id
  write_base_meta asset_id r
  store_meta_u256 asset_id MetaKey.has_erc20 1
  store_meta_u256 asset_id MetaKey.evm_contract (address_to_u256 evm_contract)
  set_evm_contract_asset_id evm_contract asset_id
  return asset_id

unfoldable pub has_erc20 : ℕ → M AssetError Bool
unfolding load_meta_u8
has_erc20 asset_id =
    if asset_id == call_asset_id
    then return false
    else (do return ((← load_meta_u8 asset_id MetaKey.has_erc20) == 1))

unfoldable pub set_has_erc20 : ℕ → ℕ → M AssetError (Unit {0})
unfolding store_meta_u256
set_has_erc20 asset_id value = store_meta_u256 asset_id MetaKey.has_erc20 (u8_to_u256 value)

unfoldable pub set_evm_contract : ℕ → ℕ → M AssetError (Unit {0})
unfolding store_meta_u256
set_evm_contract asset_id addr =
    store_meta_u256 asset_id MetaKey.evm_contract (address_to_u256 addr)

unfoldable pub dominance : ℕ → M AssetError ℕ
unfolding load_meta_u8
dominance asset_id = load_meta_u8 asset_id MetaKey.dominance

unfoldable pub set_dominance : ℕ → ℕ → M AssetError (Unit {0})
unfolding store_meta_u256
set_dominance asset_id value = store_meta_u256 asset_id MetaKey.dominance (u8_to_u256 value)

-- `AssetStorage::next_asset_id`: the id that the next registration will take, saturated.
unfoldable pub peek_next_asset_id : M AssetError ℕ
peek_next_asset_id = do
  raw ← read next_asset_id
  return (if ltb u64_max raw then u64_max else if raw == 0 then 1 else raw)
