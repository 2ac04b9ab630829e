-- ===== src/Asset/Runs.antt =====
-- Any sequence of calls of an asset's operations keeps its supply backed by the balances.
use call_node.Prelude.{ℕ, ◌≡◌, true, List, [], ◌∷◌, All}
use call_node.Storage.{Storage}
use call_node.Asset.Ops.{transfer, transfer_from, approve, mint, burn}
use call_node.Asset.Total.{member, Distinct}
use call_node.Asset.Backing.{
  IsBacked, mint-IsBacked, burn-IsBacked, transfer-IsBacked, transfer_from-IsBacked,
  approve-IsBacked,
}

-- A call of an operation of `AssetStorage` on one asset.
pub data Call : Type 0 where
  transfer_call : (from to amount : ℕ) → Call
  transfer_from_call : (spender from to amount : ℕ) → Call
  approve_call : (owner spender amount : ℕ) → Call
  mint_call : (caller to amount : ℕ) → Call
  burn_call : (caller from amount : ℕ) → Call

-- The storage after a call, whatever it returns.
unfoldable pub after_call : ℕ → Call → Storage → Storage
after_call id (transfer_call from to amount) st = (transfer id from to amount st).1
after_call id (transfer_from_call spender from to amount) st =
    (transfer_from id spender from to amount st).1
after_call id (approve_call owner spender amount) st = (approve id owner spender amount st).1
after_call id (mint_call caller to amount) st = (mint id caller to amount st).1
after_call id (burn_call caller from amount) st = (burn id caller from amount st).1

unfoldable pub after_calls : ℕ → List Call → Storage → Storage
unfolding after_call
after_calls id [] st = st
after_calls id (c ∷ cs) st = after_calls id cs (after_call id c st)

-- The accounts whose balances the call changes are among `bs`.
abbrev pub IsWithin : List ℕ → Call → Type 0
IsWithin bs (transfer_call from to amount) = (member from bs ≡ true) × (member to bs ≡ true)
IsWithin bs (transfer_from_call spender from to amount) =
    (member from bs ≡ true) × (member to bs ≡ true)
IsWithin bs (approve_call owner spender amount) = Unit
IsWithin bs (mint_call caller to amount) = member to bs ≡ true
IsWithin bs (burn_call caller from amount) = member from bs ≡ true

after_call-IsBacked :
    (id : ℕ) (bs : List ℕ) (c : Call) (st : Storage)
    → Distinct bs
    → IsWithin bs c
    → IsBacked id bs st
    → IsBacked id bs (after_call id c st)
unfolding after_call
after_call-IsBacked id bs (transfer_call f t a) st d w b =
    transfer-IsBacked id bs d f t a st w.0 w.1 b
after_call-IsBacked id bs (transfer_from_call s f t a) st d w b =
    transfer_from-IsBacked id bs d s f t a st w.0 w.1 b
after_call-IsBacked id bs (approve_call o s a) st d w b = approve-IsBacked id bs d o s a st b
after_call-IsBacked id bs (mint_call c t a) st d w b = mint-IsBacked id bs d c t a st w b
after_call-IsBacked id bs (burn_call c f a) st d w b = burn-IsBacked id bs d c f a st w b

-- If the recorded supply is the sum of the holders' balances, it still is after any calls of
-- `transfer`, `transfer_from`, `approve`, `mint` and `burn` that move the holders' balances only,
-- the failed ones included.
pub after_calls-IsBacked :
    (id : ℕ) (bs : List ℕ) (cs : List Call) (st : Storage)
    → Distinct bs
    → All (IsWithin bs) cs
    → IsBacked id bs st
    → IsBacked id bs (after_calls id cs st)
unfolding after_calls
after_calls-IsBacked id bs [] st d w b = b
after_calls-IsBacked id bs (c ∷ cs) st d w b =
    after_calls-IsBacked id bs cs (after_call id c st) d w.1
      (after_call-IsBacked id bs c st d w.0 b)
