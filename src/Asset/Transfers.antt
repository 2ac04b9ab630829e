-- ===== src/Asset/Transfers.antt =====
-- What `transfer`, `transfer_from` and `batch_transfer` do to the balances.
use call_node.Prelude.{
  ℕ, ◌+◌, ◌-◌, ◌≤◌, ◌≡◌, refl, ◌≢◌, ◌⊎◌, true, false, List, [], ◌∷◌, arith, ◌∙◌, ap, All, inl, inr,
  u128_max, Result, ok, err,
}
use call_node.Storage.{Slot, Storage, store, slot_balance, slot_allowance, slot_eq}
use call_node.Asset.Types.{AssetError}
use call_node.Asset.Ops.{transfer, batch_transfer, transfer_from}
use call_node.Asset.Total.{member, Distinct, balance_of, total, total-store_present}

-- The storage after a transfer that goes through between two accounts.
abbrev pub moved : ℕ → ℕ → ℕ → ℕ → Storage → Storage
moved id from to amount st =
    store (slot_balance id to) (balance_of id to st + amount)
      (store (slot_balance id from) (balance_of id from st - amount) st)

-- What a transfer comes to: an error and an untouched storage, a transfer to oneself that changes
-- nothing, or the amount moved.
abbrev pub Transfers : ℕ → ℕ → ℕ → ℕ → Storage → Result AssetError (Unit {0}) × Storage → Type 0
Transfers id from to amount st (err _, st') = st' ≡ st
Transfers id from to amount st (ok _, st') =
    (balance_of id to st + amount ≤ u128_max)
    × ((from ≡ to) × (st' ≡ st)
        ⊎ (from ≢ to) × (amount ≤ balance_of id from st) × (st' ≡ moved id from to amount st))

pub transfer-Transfers :
    (id from to amount : ℕ) (st : Storage)
    → Transfers id from to amount st (transfer id from to amount st)
unfolding transfer
transfer-Transfers id from to amount st = ground arith

module _ (id : ℕ) (bs : List ℕ) (distinct : Distinct bs) where
  total-moved :
      (from to amount : ℕ) (st : Storage)
      → member from bs ≡ true
      → member to bs ≡ true
      → from ≢ to
      → amount ≤ balance_of id from st
      → total id bs (moved id from to amount st) ≡ total id bs st
  total-moved from to amount st mf mt ne le =
      let st' : Storage = store (slot_balance id from) (balance_of id from st - amount) st in
      ground (
        arith,
        total-store_present id bs from (balance_of id from st - amount) st distinct mf,
        total-store_present id bs to (balance_of id to st + amount) st' distinct mt,
      )

  Transfers-total :
      (from to amount : ℕ) (st : Storage)
      → member from bs ≡ true
      → member to bs ≡ true
      → (out : Result AssetError (Unit {0}) × Storage) → Transfers id from to amount st out
      → total id bs out.1 ≡ total id bs st
  Transfers-total from to amount st mf mt (err e, st') h = ap (total id bs) h
  Transfers-total from to amount st mf mt (ok u, st') (fits, inl (same, e)) = ap (total id bs) e
  Transfers-total from to amount st mf mt (ok u, st') (fits, inr (ne, le, e)) =
      ap (total id bs) e ∙ total-moved from to amount st mf mt ne le

  -- A transfer between two of the accounts keeps the sum of their balances, whether it goes
  -- through or fails.
  pub total-transfer :
      (from to amount : ℕ) (st : Storage)
      → member from bs ≡ true
      → member to bs ≡ true
      → total id bs (transfer id from to amount st).1 ≡ total id bs st
  total-transfer from to amount st mf mt =
      Transfers-total from to amount st mf mt (transfer id from to amount st)
        (transfer-Transfers id from to amount st)

  -- A batch keeps the sum too, also where one of its transfers fails and the rest is not made.
  pub total-batch_transfer :
      (from : ℕ) (recipients : List (ℕ × ℕ)) (st : Storage)
      → member from bs ≡ true
      → All (λ r. member r.0 bs ≡ true) recipients
      → total id bs (batch_transfer id from recipients st).1 ≡ total id bs st
  unfolding batch_transfer
  total-batch_transfer from [] st mf all = refl
  total-batch_transfer from ((to, amount) ∷ rest) st mf all =
      let (r, st') = transfer id from to amount st in
      let kept = total-transfer from to amount st mf all.0 in
      ground (arith, total-batch_transfer from rest st' mf all.1)

-- A transfer writes no slot but the two balances.
pub transfer_frame :
    (id from to amount : ℕ) (st : Storage) (p : Slot)
    → slot_eq p (slot_balance id from) ≡ false
    → slot_eq p (slot_balance id to) ≡ false
    → (transfer id from to amount st).1 p ≡ st p
unfolding transfer
transfer_frame id from to amount st p hf ht = ground arith

-- What `transfer_from` comes to: an error and an untouched storage, or the transfer made and the
-- allowance lowered by the amount, which it covered.
abbrev pub Spends : ℕ → ℕ → ℕ → ℕ → ℕ → Storage → Result AssetError (Unit {0}) × Storage → Type 0
Spends id spender from to amount st (err _, st') = st' ≡ st
Spends id spender from to amount st (ok _, st') =
    (amount ≤ st (slot_allowance id from spender))
    × ((transfer id from to amount st).0 ≡ ok tt)
    × (st'
        ≡ store (slot_allowance id from spender) (st (slot_allowance id from spender) - amount)
            (transfer id from to amount st).1)

pub transfer_from-Spends :
    (id spender from to amount : ℕ) (st : Storage)
    → Spends id spender from to amount st (transfer_from id spender from to amount st)
unfolding transfer_from
transfer_from-Spends id spender from to amount st =
    ground (arith, transfer-Transfers id from to amount st)
