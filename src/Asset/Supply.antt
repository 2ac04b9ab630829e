-- ===== src/Asset/Supply.antt =====
-- Minting and burning keep an asset's recorded supply equal to the sum of its balances.
use call_node.Prelude.{
  ℕ, ◌+◌, ◌-◌, ◌≤◌, ◌<◌, ◌≡◌, ◌≢◌, ◌⊎◌, arith, ◌==◌, if◌then◌else◌, u128_max, Result, ok, err,
}
use call_node.Storage.{
  Storage, load, store, slot_balance, slot_allowance, slot_asset_meta, MetaKey, u256_to_u128,
  u256_to_address,
}
use call_node.Asset.Types.{AssetError, AssetMeta, supply_underflow}
use call_node.Asset.Store.{read_meta}
use call_node.Asset.Ops.{mint, burn}
use call_node.Asset.Total.{balance_of}
use call_node.Asset.Transfers.{}

abbrev pub supply_of : ℕ → Storage → ℕ
supply_of id = load (slot_asset_meta id MetaKey.supply)

-- The fields that `mint` reads, and that reading writes nothing.
abbrev ReadsMeta : ℕ → Storage → Result AssetError AssetMeta × Storage → Type 0
ReadsMeta id st (err _, st') = st' ≡ st
ReadsMeta id st (ok m, st') =
    (st' ≡ st)
    × (m.supply ≡ u256_to_u128 (supply_of id st))
    × (m.max_supply ≡ u256_to_u128 (st (slot_asset_meta id MetaKey.max_supply)))
    × (m.issuer ≡ u256_to_address (st (slot_asset_meta id MetaKey.issuer)))

pub read_meta-ReadsMeta : (id : ℕ) (st : Storage) → ReadsMeta id st (read_meta id st)
unfolding read_meta
read_meta-ReadsMeta id st = ground arith

-- What `mint` comes to: an error and an untouched storage; or, called by the issuer, balance and
-- supply raised by the amount, within the cap if there is one.
abbrev pub Mints : ℕ → ℕ → ℕ → ℕ → Storage → Result AssetError (Unit {0}) × Storage → Type 0
Mints id caller to amount st (err _, st') = st' ≡ st
Mints id caller to amount st (ok _, st') =
    let supply = u256_to_u128 (supply_of id st) in
    let cap = u256_to_u128 (st (slot_asset_meta id MetaKey.max_supply)) in
    (u256_to_address (st (slot_asset_meta id MetaKey.issuer)) ≡ caller)
    × (supply + amount ≤ u128_max)
    × ((cap ≡ 0) ⊎ (supply + amount ≤ cap))
    × (balance_of id to st + amount ≤ u128_max)
    × (st'
        ≡ store (slot_asset_meta id MetaKey.supply) (supply + amount)
            (store (slot_balance id to) (balance_of id to st + amount) st))

pub mint-Mints :
    (id caller to amount : ℕ) (st : Storage)
    → Mints id caller to amount st (mint id caller to amount st)
unfolding mint
mint-Mints id caller to amount st = ground (arith, read_meta-ReadsMeta id st)

-- The allowance slot that a burn by another than the holder lowers.
abbrev pub after_allowance : ℕ → ℕ → ℕ → ℕ → Storage → Storage
after_allowance id caller from amount st =
    if caller == from
    then st
    else store (slot_allowance id from caller) (st (slot_allowance id from caller) - amount) st

-- What `burn` comes to. An error leaves the storage untouched, but for `supply_underflow`.
abbrev pub Burns : ℕ → ℕ → ℕ → ℕ → Storage → Result AssetError (Unit {0}) × Storage → Type 0
Burns id caller from amount st (err e, st') =
    (st' ≡ st) × (e ≢ supply_underflow)
    ⊎ (e ≡ supply_underflow)
      × (u256_to_u128 (supply_of id st) < amount)
      × (amount ≤ balance_of id from st)
Burns id caller from amount st (ok _, st') =
    ((caller ≡ from) ⊎ (amount ≤ st (slot_allowance id from caller)))
    × (amount ≤ balance_of id from st)
    × (amount ≤ u256_to_u128 (supply_of id st))
    × (st'
        ≡ store (slot_asset_meta id MetaKey.supply) (u256_to_u128 (supply_of id st) - amount) (
            after_allowance id caller from amount
              (store (slot_balance id from) (balance_of id from st - amount) st)))

pub burn-Burns :
    (id caller from amount : ℕ) (st : Storage)
    → Burns id caller from amount st (burn id caller from amount st)
unfolding burn
burn-Burns id caller from amount st = ground arith
