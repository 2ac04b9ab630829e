-- ===== src/Validator/Lifecycle.antt =====
-- A validator that stakes, leaves and claims after its period gets back exactly what it staked.
use call_node.Prelude.{
  ℕ, suc, ◌+◌, ◌-◌, ◌≤◌, ◌<◌, ◌≡◌, ◌≢◌, Option, none, some, arith, ap, subst, sym, ◌∙◌, ℕ_discrete,
  u64_max, u128_max, ok,
}
use call_node.Storage.{
  Storage, slot_validator_count, slot_unbonding_count, slot_unbonding, slot_validator_status,
  slot_validator_unbond_height, slot_validator_by_addr, u256_to_u64, u256_to_u8,
}
use call_node.Validator.Types.{staking_escrow, entry_id, entry_amount}
use call_node.Validator.Ops.{
  find_entry, remove_from_unbonding_queue, claim_unbonded, stake, unstake,
}
use call_node.Validator.Staking.{
  caller_slot, escrow_slot, staked, unstaked, stake-Stakes, unstake-Unstakes, stake_fits,
}
use call_node.Validator.Queue.{queue_length, Finds, find_entry-Finds, remove-popped}
use call_node.Validator.Claims.{period, remove_frame, IsCleared, claim_unbonded-Claims}

-- No entry of the queue has the id.
abbrev pub IsUnqueued : ℕ → Storage → Type 0
IsUnqueued id st = (j : ℕ) → j < queue_length st → entry_id (st (slot_unbonding j)) ≢ id

-- A search that ends at the only entry with the id.
Finds-only :
    (n id : ℕ) (st : Storage) (o : Option (ℕ × ℕ))
    → ((j : ℕ) → j < n → entry_id (st (slot_unbonding j)) ≢ id)
    → entry_id (st (slot_unbonding n)) ≡ id
    → Finds (suc n) 0 id st o
    → o ≡ some (n, entry_amount (st (slot_unbonding n)))
Finds-only n id st none no_other own h = absurd (h n (omega arith) (omega arith) own)
Finds-only n id st (some (k, amount)) no_other own h = elim (ℕ_discrete k n) [
  | yes e ↦ ground arith
  | no d ↦ absurd (no_other k (omega arith) h.2)
]

-- A claim goes through once the period has passed, if the queue and the escrow have the amount.
claim_unbonded-ok :
    (id caller block amount : ℕ) (st : Storage)
    → caller ≢ staking_escrow
    → u256_to_u64 (st (slot_validator_by_addr caller)) ≡ id
    → id ≢ 0
    → u256_to_u8 (st (slot_validator_status caller)) ≡ 2
    → u256_to_u64 (st (slot_validator_unbond_height caller)) + period st ≤ block
    → u256_to_u64 (st (slot_validator_unbond_height caller)) + period st ≤ u64_max
    → (remove_from_unbonding_queue id st).0 ≡ ok amount
    → amount ≤ st escrow_slot
    → st escrow_slot ≤ u128_max
    → st (caller_slot caller) + amount ≤ u128_max
    → (claim_unbonded id caller block st).0 ≡ ok amount
unfolding claim_unbonded
claim_unbonded-ok id caller block amount st ne by_addr ne_zero status due fits queued le escrow
      room =
    ground (arith, remove_frame id st escrow_slot, remove_frame id st (caller_slot caller))

-- The slots that a claim reads, after a stake and an unstake at block `b`.
record IsLeaving (amount caller b : ℕ) (st st2 : Storage) : Type 0 where
  by_addr :
      u256_to_u64 (st2 (slot_validator_by_addr caller)) ≡ u256_to_u64 (st slot_validator_count) + 1
  status : u256_to_u8 (st2 (slot_validator_status caller)) ≡ 2
  height : u256_to_u64 (st2 (slot_validator_unbond_height caller)) ≡ b
  same_period : period st2 ≡ period st
  escrow : st2 escrow_slot ≡ st escrow_slot + amount
  balance : st2 (caller_slot caller) ≡ st (caller_slot caller) - amount
  queue : queue_length st2 ≡ suc (queue_length st)
  last_id :
      entry_id (st2 (slot_unbonding (queue_length st))) ≡ u256_to_u64 (st slot_validator_count) + 1
  last_amount : entry_amount (st2 (slot_unbonding (queue_length st))) ≡ amount

unstaked-IsLeaving :
    (pubkey amount caller b : ℕ) (st : Storage)
    → caller ≢ staking_escrow
    → amount ≤ u128_max
    → b ≤ u64_max
    → u256_to_u64 (st slot_validator_count) < u64_max
    → queue_length st < u64_max
    → IsLeaving amount caller b st (unstaked caller b (staked pubkey amount caller st))
unstaked-IsLeaving pubkey amount caller b st ne fits hb room space = record {
  by_addr = ground arith;
  status = ground arith;
  height = ground arith;
  same_period = ground arith;
  escrow = ground arith;
  balance = ground arith;
  queue = ground arith;
  last_id = ground arith;
  last_amount = ground arith;
}

-- What the queue held before is still there.
queue_before :
    (pubkey amount caller b j : ℕ) (st : Storage)
    → j < queue_length st
    → unstaked caller b (staked pubkey amount caller st) (slot_unbonding j) ≡ st (slot_unbonding j)
queue_before pubkey amount caller b j st lt = ground arith

stake-eq-staked :
    (pubkey amount caller : ℕ) (st : Storage)
    → caller ≢ staking_escrow
    → (stake pubkey amount caller st).0 ≡ ok tt
    → (stake pubkey amount caller st).1 ≡ staked pubkey amount caller st
stake-eq-staked pubkey amount caller st ne h =
    ground (arith, stake-Stakes pubkey amount caller st ne)

unstake-eq-unstaked :
    (id caller b : ℕ) (st : Storage)
    → (unstake id caller b st).0 ≡ ok tt
    → ((unstake id caller b st).1 ≡ unstaked caller b st)
      × (u256_to_u64 (st slot_unbonding_count) < u64_max)
unstake-eq-unstaked id caller b st h = ground (arith, unstake-Unstakes id caller b st)

-- A claim by a validator that has left, whose entry is the last of the queue and the only one with
-- its id.
claim-IsLeaving :
    (amount caller b later : ℕ) (st st2 : Storage)
    → caller ≢ staking_escrow
    → IsLeaving amount caller b st st2
    → IsUnqueued (u256_to_u64 (st slot_validator_count) + 1) st
    → ((j : ℕ) → j < queue_length st → st2 (slot_unbonding j) ≡ st (slot_unbonding j))
    → b + period st ≤ u64_max
    → b + period st ≤ later
    → amount ≤ st (caller_slot caller)
    → st (caller_slot caller) ≤ u128_max
    → st escrow_slot + amount ≤ u128_max
    → let id = u256_to_u64 (st slot_validator_count) + 1 in
      let (res, st3) = claim_unbonded id caller later st2 in
      (res ≡ ok amount)
      × (st3 (caller_slot caller) ≡ st (caller_slot caller))
      × (st3 escrow_slot ≡ st escrow_slot)
      × IsCleared caller id st3
claim-IsLeaving amount caller b later st st2 ne gone unqueued kept timely waited paid room space =
    let id = u256_to_u64 (st slot_validator_count) + 1 in
    let n = queue_length st in
    let found : find_entry (queue_length st2) 0 id st2 ≡ some (n, amount) = rw (gone.queue) (
      Finds-only n id st2 (find_entry (suc n) 0 id st2) (λ j lt. rw (kept j lt) (unqueued j lt))
        gone.last_id (find_entry-Finds (suc n) 0 id st2)
      ∙ ap (λ a. some (n, a)) gone.last_amount) in
    let removed : (remove_from_unbonding_queue id st2).0 ≡ ok amount =
      ap (λ out. out.0) (remove-popped id n amount n st2 found gone.queue) in
    let claimed : (claim_unbonded id caller later st2).0 ≡ ok amount =
      claim_unbonded-ok id caller later amount st2 ne gone.by_addr (omega arith) gone.status
        (omega arith) (omega arith) removed (omega arith) (omega arith) (omega arith) in
    ground (arith, claim_unbonded-Claims id caller later st2 ne)

-- A validator that stakes an amount, leaves at block `b` and claims at or after the end of its
-- period gets the amount; then it holds what it held before the stake, so does the escrow, and its
-- record is cleared. This holds for a queue in which no entry has the id that the stake hands out.
pub claim-unstake-stake :
    (pubkey amount caller b later : ℕ) (st : Storage)
    → caller ≢ staking_escrow
    → amount ≤ u128_max
    → IsUnqueued (u256_to_u64 (st slot_validator_count) + 1) st
    → b + period st ≤ u64_max
    → b + period st ≤ later
    → (stake pubkey amount caller st).0 ≡ ok tt
    → (unstake
        (u256_to_u64 (st slot_validator_count) + 1)
        caller
        b
        (stake pubkey amount caller st).1).0
      ≡ ok tt
    → let id = u256_to_u64 (st slot_validator_count) + 1 in
      let st2 = (unstake id caller b (stake pubkey amount caller st).1).1 in
      let (claimed, st3) = claim_unbonded id caller later st2 in
      (claimed ≡ ok amount)
      × (st3 (caller_slot caller) ≡ st (caller_slot caller))
      × (st3 escrow_slot ≡ st escrow_slot)
      × IsCleared caller id st3
claim-unstake-stake pubkey amount caller b later st ne fits unqueued timely waited joined left =
    let id = u256_to_u64 (st slot_validator_count) + 1 in
    let st1 : Storage = (stake pubkey amount caller st).1 in
    let st2 : Storage = (unstake id caller b st1).1 in
    let room = stake_fits pubkey amount caller st ne joined in
    let e1 = stake-eq-staked pubkey amount caller st ne joined in
    let e2 = unstake-eq-unstaked id caller b st1 left in
    let e : st2 ≡ unstaked caller b (staked pubkey amount caller st) =
      e2.0 ∙ ap (unstaked caller b) e1 in
    let space : queue_length st < u64_max =
      subst (λ s. u256_to_u64 (s slot_unbonding_count) < u64_max) e1 e2.1 in
    claim-IsLeaving amount caller b later st st2 ne
      (subst (IsLeaving amount caller b st) (sym e)
        (unstaked-IsLeaving pubkey amount caller b st ne fits (omega arith) room.3 space))
      unqueued
      (λ j lt. ap (λ s. s (slot_unbonding j)) e ∙ queue_before pubkey amount caller b j st lt)
      timely waited room.0 room.1 room.2
