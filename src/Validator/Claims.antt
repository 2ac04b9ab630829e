-- ===== src/Validator/Claims.antt =====
-- What `claim_unbonded` and `slash_stake` do to the escrow and to the validator's record.
use call_node.Prelude.{
  ℕ, ◌+◌, ◌-◌, ◌≤◌, ◌<◌, ◌≡◌, ◌≢◌, ◌⊎◌, arith, ◌==◌, if◌then◌else◌, Result, ok, err,
}
use call_node.Storage.{
  Slot, Storage, IsRefused, store, slot_unbonding_count, slot_active_validator_count,
  slot_unbonding_period_blocks, slot_validator_addr, slot_unbonding, slot_validator_stake,
  slot_validator_pubkey, slot_validator_status, slot_validator_unbond_height,
  slot_validator_by_addr, family, u256_to_u64, u256_to_u128, u256_to_u8,
}
use call_node.Validator.Types.{ValidatorError, staking_escrow}
use call_node.Validator.Ops.{remove_from_unbonding_queue, claim_unbonded, slash_stake}
use call_node.Validator.Staking.{caller_slot, escrow_slot}

-- The removal from the queue writes only the queue.
pub remove_frame :
    (id : ℕ) (st : Storage) (p : Slot)
    → family p ≢ family (slot_unbonding 0)
    → family p ≢ family slot_unbonding_count
    → (remove_from_unbonding_queue id st).1 p ≡ st p
unfolding remove_from_unbonding_queue
remove_frame id st p h k = ground arith

-- The period in force: 120,960 blocks unless the storage says otherwise.
abbrev pub period : Storage → ℕ
period st =
    if u256_to_u64 (st slot_unbonding_period_blocks) == 0
    then 120_960
    else u256_to_u64 (st slot_unbonding_period_blocks)

-- Nothing is left of a validator's record.
pub record IsCleared (addr id : ℕ) (st : Storage) : Type 0 where
  pub by_addr : st (slot_validator_by_addr addr) ≡ 0
  pub stake : st (slot_validator_stake addr) ≡ 0
  pub status : st (slot_validator_status addr) ≡ 0
  pub pubkey : st (slot_validator_pubkey addr) ≡ 0
  pub unbond_height : st (slot_validator_unbond_height addr) ≡ 0
  pub by_index : st (slot_validator_addr id) ≡ 0

-- What `claim_unbonded` comes to. A claim that succeeds was made by the validator, was unbonding,
-- and came after its period; the queue's amount moves from the escrow to the caller.
abbrev pub Claims : ℕ → ℕ → ℕ → Storage → Result ValidatorError ℕ × Storage → Type 0
Claims id caller block st (err e, st') = st' (caller_slot caller) ≡ st (caller_slot caller)
Claims id caller block st (ok amount, st') =
    (u256_to_u64 (st (slot_validator_by_addr caller)) ≡ id)
    × (id ≢ 0)
    × (u256_to_u8 (st (slot_validator_status caller)) ≡ 2)
    × (u256_to_u64 (st (slot_validator_unbond_height caller)) + period st ≤ block)
    × ((remove_from_unbonding_queue id st).0 ≡ ok amount)
    × (amount ≤ st escrow_slot)
    × (st' escrow_slot ≡ st escrow_slot - amount)
    × (st' (caller_slot caller) ≡ st (caller_slot caller) + amount)
    × IsCleared caller id st'

pub claim_unbonded-Claims :
    (id caller block : ℕ) (st : Storage)
    → caller ≢ staking_escrow
    → Claims id caller block st (claim_unbonded id caller block st)
unfolding claim_unbonded
claim_unbonded-Claims id caller block st ne =
    ground (arith, remove_frame id st escrow_slot, remove_frame id st (caller_slot caller))

-- Before the period has passed, a claim fails and changes nothing.
pub claim_too_early :
    (id caller block : ℕ) (st : Storage)
    → block < u256_to_u64 (st (slot_validator_unbond_height caller)) + period st
    → IsRefused st (claim_unbonded id caller block st)
unfolding claim_unbonded
claim_too_early id caller block st h = ground arith

-- What `slash_stake` comes to. The stake of a registered validator leaves the escrow, its record
-- is cleared, and the active set shrinks by it if it was active.
abbrev pub Slashes : ℕ → Storage → Result ValidatorError ℕ × Storage → Type 0
Slashes addr st (err e, st') =
    (u256_to_u64 (st (slot_validator_by_addr addr)) ≢ 0)
    × (st' (slot_validator_by_addr addr) ≡ st (slot_validator_by_addr addr))
Slashes addr st (ok amount, st') =
    let id = u256_to_u64 (st (slot_validator_by_addr addr)) in
    let active = u256_to_u64 (st slot_active_validator_count) in
    (id ≡ 0) × (amount ≡ 0) × (st' ≡ st)
    ⊎ (id ≢ 0)
      × (amount ≡ u256_to_u128 (st (slot_validator_stake addr)))
      × (amount ≤ st escrow_slot)
      × (st' escrow_slot ≡ st escrow_slot - amount)
      × IsCleared addr id st'
      × (u256_to_u64 (st' slot_active_validator_count)
          ≡ (if u256_to_u8 (st (slot_validator_status addr)) == 1 then active - 1 else active))

pub slash_stake-Slashes : (addr : ℕ) (st : Storage) → Slashes addr st (slash_stake addr st)
unfolding slash_stake
slash_stake-Slashes addr st =
    let id = u256_to_u64 (st (slot_validator_by_addr addr)) in
    let paid : Storage =
      store escrow_slot (st escrow_slot - u256_to_u128 (st (slot_validator_stake addr))) st in
    ground (
      arith,
      remove_frame id st escrow_slot,
      remove_frame id paid escrow_slot,
      remove_frame id st slot_active_validator_count,
      remove_frame id paid slot_active_validator_count,
      remove_frame id st (slot_validator_by_addr addr),
      remove_frame id paid (slot_validator_by_addr addr),
    )
