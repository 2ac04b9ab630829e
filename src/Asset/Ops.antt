-- ===== src/Asset/Ops.antt =====
-- crates/asset/src/lib.rs: the business logic of `AssetStorage`.
use call_node.Prelude.{
  ℕ, ◌+◌, ◌-◌, ◌&&◌, Option, none, some, not, List, [], ◌∷◌, ltb, ◌==◌, if◌then◌else◌, u128_max,
  checked_add, checked_sub,
}
use call_node.Storage.{M, return, throw_if, ok_or, ◌>>=◌, ◌>>◌, MetaKey, u128_to_u256}
use call_node.Asset.Types.{
  AssetError, balance_overflow, insufficient_allowance, not_issuer, supply_overflow,
  supply_underflow, max_supply_exceeded,
}
use call_node.Asset.Store.{
  read_balance, write_balance, add_balance, deduct_balance, read_allowance, write_allowance,
  load_meta_u128, store_meta_u256, read_meta,
}

unfoldable pub transfer : ℕ → ℕ → ℕ → ℕ → M AssetError (Unit {0})
unfolding read_balance deduct_balance write_balance
transfer asset_id from to amount = do
  to_current ← read_balance asset_id to
  ok_or (checked_add u128_max to_current amount) balance_overflow
  (if from == to
      then return tt
      else (deduct_balance asset_id from amount >> write_balance asset_id to (to_current + amount)))

-- Not atomic: what an earlier transfer wrote stays when a later one fails.
unfoldable pub batch_transfer : ℕ → ℕ → List (ℕ × ℕ) → M AssetError (Unit {0})
batch_transfer asset_id from [] = return tt
batch_transfer asset_id from ((to, amount) ∷ recipients) =
    transfer asset_id from to amount >> batch_transfer asset_id from recipients

unfoldable pub approve : ℕ → ℕ → ℕ → ℕ → M AssetError (Unit {0})
unfolding write_allowance
approve asset_id owner spender amount = do
  read_meta asset_id
  write_allowance asset_id owner spender amount

unfoldable pub transfer_from : ℕ → ℕ → ℕ → ℕ → ℕ → M AssetError (Unit {0})
unfolding read_allowance write_allowance
transfer_from asset_id spender from to amount = do
  allowance ← read_allowance asset_id from spender
  throw_if (ltb allowance amount) insufficient_allowance
  transfer asset_id from to amount
  write_allowance asset_id from spender (allowance - amount)

unfoldable pub mint : ℕ → ℕ → ℕ → ℕ → M AssetError (Unit {0})
unfolding add_balance store_meta_u256
mint asset_id caller to amount = do
  meta ← read_meta asset_id
  throw_if (not (meta.issuer == caller)) not_issuer
  new_supply ← ok_or (checked_add u128_max meta.supply amount) supply_overflow
  throw_if (ltb 0 meta.max_supply && ltb meta.max_supply new_supply) max_supply_exceeded
  add_balance asset_id to amount
  store_meta_u256 asset_id MetaKey.supply (u128_to_u256 new_supply)

-- The allowance that a burn by `caller` leaves, if `caller` is not the holder.
unfoldable pub allowance_after_burn : ℕ → ℕ → ℕ → ℕ → M AssetError (Option ℕ)
unfolding read_allowance
allowance_after_burn asset_id caller from amount = if caller == from then return none else (do
  allowance ← read_allowance asset_id from caller
  throw_if (ltb allowance amount) insufficient_allowance
  return (some (allowance - amount)))

unfoldable pub burn : ℕ → ℕ → ℕ → ℕ → M AssetError (Unit {0})
unfolding allowance_after_burn deduct_balance write_allowance load_meta_u128 store_meta_u256
burn asset_id caller from amount = do
  new_allowance ← allowance_after_burn asset_id caller from amount
  deduct_balance asset_id from amount
  elim new_allowance [ none ↦ return tt | some na ↦ write_allowance asset_id from caller na ]
  supply ← load_meta_u128 asset_id MetaKey.supply
  new_supply ← ok_or (checked_sub supply amount) supply_underflow
  store_meta_u256 asset_id MetaKey.supply (u128_to_u256 new_supply)
