-- ===== src/Asset/Backing.antt =====
-- The invariant of an asset: its recorded supply is the sum of the balances of its holders.
use call_node.Prelude.{
  ℕ, ◌+◌, ◌-◌, ◌≤◌, ◌≡◌, refl, ◌≢◌, ◌⊎◌, inl, inr, true, List, arith, subst, u128_max, Result, ok,
  err, sym,
}
use call_node.Storage.{
  Storage, store, slot_balance, slot_allowance, slot_asset_meta, MetaKey, u256_to_u128,
}
use call_node.Asset.Types.{AssetError, supply_underflow}
use call_node.Asset.Store.{}
use call_node.Asset.Ops.{transfer, transfer_from, approve, mint, burn}
use call_node.Asset.Total.{
  member, Distinct, balance_of, total, total-store_present, total-store_other, balance-le-total,
}
use call_node.Asset.Transfers.{Spends, transfer_from-Spends, transfer_frame, total-transfer}
use call_node.Asset.Supply.{
  supply_of, read_meta-ReadsMeta, Mints, mint-Mints, Burns, burn-Burns, after_allowance,
}

-- The holders are `bs`; the supply is a u128.
abbrev pub IsBacked : ℕ → List ℕ → Storage → Type 0
IsBacked id bs st = (total id bs st ≡ supply_of id st) × (supply_of id st ≤ u128_max)

module _ (id : ℕ) (bs : List ℕ) (distinct : Distinct bs) where
  supply-after_allowance :
      (caller from amount : ℕ) (st : Storage)
      → total id bs (after_allowance id caller from amount st) ≡ total id bs st
  supply-after_allowance caller from amount st = ground (
    arith,
    total-store_other id bs (slot_allowance id from caller)
        (st (slot_allowance id from caller) - amount) st,
  )

  Mints-IsBacked :
      (caller to amount : ℕ) (st : Storage) (out : Result AssetError (Unit {0}) × Storage)
      → member to bs ≡ true
      → IsBacked id bs st
      → Mints id caller to amount st out
      → IsBacked id bs out.1
  Mints-IsBacked caller to amount st (err e, st') m b h = subst (IsBacked id bs) (sym h) b
  Mints-IsBacked caller to amount st (ok u, st') m b h =
      let credited : Storage = store (slot_balance id to) (balance_of id to st + amount) st in
      let supply = supply_of id st + amount in
      subst (IsBacked id bs) (sym h.4) (
        ground (
          arith,
          total-store_present id bs to (balance_of id to st + amount) st distinct m,
          total-store_other id bs (slot_asset_meta id MetaKey.supply)
              (u256_to_u128 (supply_of id st) + amount) credited,
        ))

  Burns-IsBacked :
      (caller from amount : ℕ) (st : Storage) (out : Result AssetError (Unit {0}) × Storage)
      → member from bs ≡ true
      → IsBacked id bs st
      → Burns id caller from amount st out
      → IsBacked id bs out.1
  Burns-IsBacked caller from amount st (err e, st') m b (inl h) = subst (IsBacked id bs) (sym h.0) b
  Burns-IsBacked caller from amount st (err e, st') m b (inr h) =
      absurd (omega (arith, balance-le-total id bs from st m))
  Burns-IsBacked caller from amount st (ok u, st') m b h =
      let debited : Storage = store (slot_balance id from) (balance_of id from st - amount) st in
      let spent : Storage = after_allowance id caller from amount debited in
      subst (IsBacked id bs) (sym h.3) (
        ground (
          arith,
          total-store_present id bs from (balance_of id from st - amount) st distinct m,
          supply-after_allowance caller from amount debited,
          total-store_other id bs (slot_asset_meta id MetaKey.supply)
              (u256_to_u128 (supply_of id st) - amount) spent,
        ))

  -- Minting to one of the holders keeps the supply backed.
  pub mint-IsBacked :
      (caller to amount : ℕ) (st : Storage)
      → member to bs ≡ true
      → IsBacked id bs st
      → IsBacked id bs (mint id caller to amount st).1
  mint-IsBacked caller to amount st m b =
      Mints-IsBacked caller to amount st (mint id caller to amount st) m b
        (mint-Mints id caller to amount st)

  -- Burning from one of the holders keeps the supply backed.
  pub burn-IsBacked :
      (caller from amount : ℕ) (st : Storage)
      → member from bs ≡ true
      → IsBacked id bs st
      → IsBacked id bs (burn id caller from amount st).1
  burn-IsBacked caller from amount st m b =
      Burns-IsBacked caller from amount st (burn id caller from amount st) m b
        (burn-Burns id caller from amount st)

  Burns-atomic :
      (caller from amount : ℕ) (st : Storage) (out : Result AssetError (Unit {0}) × Storage)
      → member from bs ≡ true
      → IsBacked id bs st
      → Burns id caller from amount st out
      → (out.0 ≢ err supply_underflow) × ((out.0 ≡ ok tt) ⊎ (out.1 ≡ st))
  Burns-atomic caller from amount st (ok u, st') m b h = ((λ e. cc), inl refl)
  Burns-atomic caller from amount st (err e, st') m b (inl h) = ((λ e. ground arith), inr h.0)
  Burns-atomic caller from amount st (err e, st') m b (inr h) =
      absurd (omega (arith, balance-le-total id bs from st m))

  -- With a backed supply a burn never stops at `supply_underflow`, and so it is atomic: it succeeds
  -- or leaves the storage as it was.
  pub burn_atomic :
      (caller from amount : ℕ) (st : Storage)
      → member from bs ≡ true
      → IsBacked id bs st
      → let (r, st') = burn id caller from amount st in
        (r ≢ err supply_underflow) × ((r ≡ ok tt) ⊎ (st' ≡ st))
  burn_atomic caller from amount st m b =
      Burns-atomic caller from amount st (burn id caller from amount st) m b
        (burn-Burns id caller from amount st)

  pub transfer-IsBacked :
      (from to amount : ℕ) (st : Storage)
      → member from bs ≡ true
      → member to bs ≡ true
      → IsBacked id bs st
      → IsBacked id bs (transfer id from to amount st).1
  transfer-IsBacked from to amount st mf mt b = ground (
    arith,
    total-transfer id bs distinct from to amount st mf mt,
    transfer_frame id from to amount st (slot_asset_meta id MetaKey.supply),
  )

  Spends-IsBacked :
      (spender from to amount : ℕ) (st : Storage) (out : Result AssetError (Unit {0}) × Storage)
      → member from bs ≡ true
      → member to bs ≡ true
      → IsBacked id bs st
      → Spends id spender from to amount st out
      → IsBacked id bs out.1
  Spends-IsBacked spender from to amount st (err e, st') mf mt b h =
      subst (IsBacked id bs) (sym h) b
  Spends-IsBacked spender from to amount st (ok u, st') mf mt b h =
      subst (IsBacked id bs) (sym h.2) (
        ground (
          arith,
          transfer-IsBacked from to amount st mf mt b,
          total-store_other id bs (slot_allowance id from spender)
              (st (slot_allowance id from spender) - amount) (transfer id from to amount st).1,
        ))

  pub transfer_from-IsBacked :
      (spender from to amount : ℕ) (st : Storage)
      → member from bs ≡ true
      → member to bs ≡ true
      → IsBacked id bs st
      → IsBacked id bs (transfer_from id spender from to amount st).1
  transfer_from-IsBacked spender from to amount st mf mt b =
      Spends-IsBacked spender from to amount st (transfer_from id spender from to amount st) mf mt b
        (transfer_from-Spends id spender from to amount st)

  pub approve-IsBacked :
      (owner spender amount : ℕ) (st : Storage)
      → IsBacked id bs st
      → IsBacked id bs (approve id owner spender amount st).1
  unfolding approve
  approve-IsBacked owner spender amount st b = ground (
    arith,
    read_meta-ReadsMeta id st,
    total-store_other id bs (slot_allowance id owner spender) amount st,
  )
