-- ===== src/Asset/Total.antt =====
-- The sum of an asset's balances over a list of accounts, and how a write to the storage moves it.
use call_node.Prelude.{
  ℕ, ◌+◌, ◌≤◌, ◌≡◌, refl, ◌≢◌, Bool, true, false, List, [], ◌∷◌, arith, ◌==◌, if◌then◌else◌,
}
use call_node.Storage.{Slot, Storage, load, store, slot_balance, family}

abbrev pub member : ℕ → List ℕ → Bool
member a [] = false
member a (b ∷ bs) = if a == b then true else member a bs

-- No account is listed twice.
abbrev pub Distinct : List ℕ → Type 0
Distinct [] = Unit
Distinct (a ∷ bs) = (member a bs ≡ false) × Distinct bs

abbrev pub balance_of : ℕ → ℕ → Storage → ℕ
balance_of asset_id addr = load (slot_balance asset_id addr)

abbrev pub total : ℕ → List ℕ → Storage → ℕ
total asset_id [] st = 0
total asset_id (a ∷ bs) st = balance_of asset_id a st + total asset_id bs st

module _ (asset_id : ℕ) where
  pub total-store_absent :
      (bs : List ℕ) (a v : ℕ) (st : Storage)
      → member a bs ≡ false
      → total asset_id bs (store (slot_balance asset_id a) v st) ≡ total asset_id bs st
  total-store_absent [] a v st h = refl
  total-store_absent (b ∷ bs) a v st h = ground (arith, total-store_absent bs a v st)

  pub total-store_present :
      (bs : List ℕ) (a v : ℕ) (st : Storage)
      → Distinct bs
      → member a bs ≡ true
      → total asset_id bs (store (slot_balance asset_id a) v st) + balance_of asset_id a st
        ≡ total asset_id bs st + v
  total-store_present [] a v st d h = ground arith
  total-store_present (b ∷ bs) a v st d h =
      ground (arith, total-store_present bs a v st d.1, total-store_absent bs a v st)

  -- A write to a slot that holds no balance.
  pub total-store_other :
      (bs : List ℕ) (p : Slot) (v : ℕ) (st : Storage)
      → family p ≢ 1
      → total asset_id bs (store p v st) ≡ total asset_id bs st
  total-store_other [] p v st h = refl
  total-store_other (b ∷ bs) p v st h = ground (arith, total-store_other bs p v st h)

  pub balance-le-total :
      (bs : List ℕ) (a : ℕ) (st : Storage)
      → member a bs ≡ true
      → balance_of asset_id a st ≤ total asset_id bs st
  balance-le-total [] a st h = ground arith
  balance-le-total (b ∷ bs) a st h = ground (arith, balance-le-total bs a st)
