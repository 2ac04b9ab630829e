-- ===== src/Asset/Binding.antt =====
-- Registration hands out increasing ids, and binds an ERC-20 contract at most once.
use call_node.Prelude.{ℕ, ◌+◌, ◌≤◌, ◌<◌, ◌≡◌, ◌≢◌, arith, Result, ok, err, some}
use call_node.Storage.{Storage, next_asset_id, erc20_binding_slot, slot_asset_meta, MetaKey}
use call_node.Asset.Types.{AssetError, erc20_already_bound}
use call_node.Asset.Registry.{Registration, register, register_erc20, evm_contract_asset_id}
use call_node.Asset.Registration.{fresh_id}

-- What a registration of a contract comes to: an error, the binding as it was; or a new id, bound.
abbrev Binds : ℕ → Storage → Result AssetError ℕ × Storage → Type 0
Binds c st (err _, st') = st' (erc20_binding_slot c) ≡ st (erc20_binding_slot c)
Binds c st (ok id, st') =
    (st (erc20_binding_slot c) ≡ 0)
    × (id ≡ fresh_id st)
    × (st' (erc20_binding_slot c) ≡ id)
    × (st' next_asset_id ≡ id + 1)
    × (st' (slot_asset_meta id MetaKey.has_erc20) ≡ 1)

register_erc20-Binds :
    (c : ℕ) (r : Registration) (st : Storage) → Binds c st (register_erc20 c r st)
unfolding register_erc20
register_erc20-Binds c r st = ground arith

-- A contract with a binding cannot be registered again.
register_erc20_bound :
    (c : ℕ) (r : Registration) (st : Storage)
    → r.decimals ≤ 18
    → st (erc20_binding_slot c) ≢ 0
    → register_erc20 c r st ≡ (err (erc20_already_bound c), st)
unfolding register_erc20
register_erc20_bound c r st d h = ground arith

-- After a contract is registered under an id, the index finds that id, and every further
-- registration of the contract (with at most 18 decimals) is refused and changes nothing.
pub register_erc20_once :
    (c id : ℕ) (r again : Registration) (st : Storage)
    → (register_erc20 c r st).0 ≡ ok id
    → again.decimals ≤ 18
    → let st' = (register_erc20 c r st).1 in
      (evm_contract_asset_id c st' ≡ (ok (some id), st'))
      × (register_erc20 c again st' ≡ (err (erc20_already_bound c), st'))
unfolding evm_contract_asset_id
register_erc20_once c id r again st h d = (
  ground (arith, register_erc20-Binds c r st),
  register_erc20_bound c again (register_erc20 c r st).1 d
      (ground (arith, register_erc20-Binds c r st)),
)

-- What `register` does to the counter of ids.
abbrev Allocates : Storage → Result AssetError ℕ × Storage → Type 0
Allocates st (err _, st') = Unit
Allocates st (ok id, st') = (id ≡ fresh_id st) × (st' next_asset_id ≡ id + 1)

register-Allocates : (r : Registration) (st : Storage) → Allocates st (register r st)
unfolding register
register-Allocates r st = ground arith

-- Of two registrations that follow one another, the second gets a greater id.
pub register-lt :
    (r q : Registration) (i j : ℕ) (st : Storage)
    → (register r st).0 ≡ ok i
    → (register q (register r st).1).0 ≡ ok j
    → i < j
register-lt r q i j st h g =
    ground (arith, register-Allocates r st, register-Allocates q (register r st).1)
