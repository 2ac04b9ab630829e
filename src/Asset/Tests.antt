-- ===== src/Asset/Tests.antt =====
-- Runs of the asset operations on small storages, and the theorems at those inputs.
use call_node.Prelude.{
  ℕ, ◌<◌, ◌≡◌, refl, ◌≢◌, ◌⊎◌, inl, List, [], ◌∷◌, arith, ok, err, some, is_utf8,
}
use call_node.Storage.{
  Storage, store, empty_storage, slot_balance, slot_allowance, slot_asset_meta, MetaKey,
}
use call_node.Asset.Types.{insufficient_balance, supply_underflow, erc20_already_bound}
use call_node.Asset.Store.{read_meta}
use call_node.Asset.Ops.{transfer, burn}
use call_node.Asset.Registry.{Registration, register, register_erc20, evm_contract_asset_id}
use call_node.Asset.Total.{Distinct}
use call_node.Asset.Transfers.{}
use call_node.Asset.Supply.{}
use call_node.Asset.Backing.{IsBacked, burn_atomic}
use call_node.Asset.Runs.{
  Call, mint_call, burn_call, transfer_call, transfer_from_call, approve_call, after_calls,
  after_calls-IsBacked,
}
use call_node.Asset.Registration.{
  IsRegistrable, IsShortText, fresh_id, registered_meta, read_meta-register,
}
use call_node.Asset.Binding.{register_erc20_once, register-lt}

-- Asset 7 with issuer 9, supply 150 and cap 200; account 1 lets account 3 spend 30.
abbrev opening : Storage
opening = store (slot_asset_meta 7 MetaKey.supply) 150 (
    store (slot_asset_meta 7 MetaKey.max_supply) 200 (
      store (slot_asset_meta 7 MetaKey.issuer) 9 (
        store (slot_allowance 7 1 3) 30
          (store (slot_balance 7 1) 100 (store (slot_balance 7 2) 50 empty_storage)))))

abbrev holders : List ℕ
holders = 1 ∷ 2 ∷ []

holders-Distinct : Distinct holders
holders-Distinct = (refl, (refl, tt))

transfer-opening : (transfer 7 1 2 60 opening).1 (slot_balance 7 2) ≡ 110
unfolding transfer
transfer-opening = refl

transfer_too_much : transfer 7 1 2 101 opening ≡ (err insufficient_balance, opening)
unfolding transfer
transfer_too_much = refl

burn_without_allowance : (burn 7 3 1 31 opening).1 (slot_balance 7 1) ≡ 100
unfolding burn
burn_without_allowance = refl

opening-IsBacked : IsBacked 7 holders opening
opening-IsBacked = (refl, omega arith)

burn_atomic_example :
    let (r, st') = burn 7 1 1 40 opening in
    (r ≢ err supply_underflow) × ((r ≡ ok tt) ⊎ (st' ≡ opening))
burn_atomic_example = burn_atomic 7 holders holders-Distinct 1 1 40 opening refl opening-IsBacked

abbrev calls : List Call
calls =
    mint_call 9 2 50
    ∷ transfer_call 2 1 70
    ∷ approve_call 1 3 10
    ∷ transfer_from_call 3 1 2 25
    ∷ burn_call 2 2 5
    ∷ burn_call 3 1 1000
    ∷ []

after_calls-IsBacked_example : IsBacked 7 holders (after_calls 7 calls opening)
after_calls-IsBacked_example =
    after_calls-IsBacked 7 holders calls opening holders-Distinct
      (refl, ((refl, refl), (tt, ((refl, refl), (refl, (refl, tt)))))) opening-IsBacked

-- "GOLD", "Gold".
abbrev gold : Registration
gold = record {
  symbol = 71 ∷ 79 ∷ 76 ∷ 68 ∷ [];
  name = 71 ∷ 111 ∷ 108 ∷ 100 ∷ [];
  decimals = 18;
  max_supply = 10_000;
  issuer = 17;
  registered_at = 5;
}

symbol-IsShortText : IsShortText gold.symbol
unfolding is_utf8
symbol-IsShortText = record { fits = omega arith; no_zero = omega arith; utf8 = refl }

name-IsShortText : IsShortText gold.name
unfolding is_utf8
name-IsShortText = record { fits = omega arith; no_zero = omega arith; utf8 = refl }

gold-IsRegistrable : IsRegistrable gold
gold-IsRegistrable = record {
  symbol = symbol-IsShortText;
  name = name-IsShortText;
  decimals = omega arith;
  max_supply = omega arith;
  issuer = omega arith;
  named = inl (omega arith);
}

read_meta-register_example :
    let (res, st') = register gold opening in
    (res ≡ ok (fresh_id opening))
    × (read_meta (fresh_id opening) st' ≡ (ok (registered_meta gold opening), st'))
read_meta-register_example = read_meta-register gold opening gold-IsRegistrable (omega arith)

register_erc20_once_example :
    let st' = (register_erc20 77 gold opening).1 in
    (evm_contract_asset_id 77 st' ≡ (ok (some 1), st'))
    × (register_erc20 77 gold st' ≡ (err (erc20_already_bound 77), st'))
unfolding register_erc20
register_erc20_once_example = register_erc20_once 77 1 gold gold opening refl (omega arith)

register-lt_example : 1 < 2
unfolding register
register-lt_example = register-lt gold gold 1 2 opening refl refl
