-- ===== src/Validator/Staking.antt =====
-- What `stake` and `unstake` do, on every branch.
use call_node.Prelude.{
  ℕ, ◌+◌, ◌-◌, ◌≤◌, ◌<◌, ◌≡◌, ◌≢◌, ◌⊎◌, arith, u64_max, u128_max, Result, ok, err,
}
use call_node.Storage.{
  Slot, Storage, store, slot_balance, slot_validator_count, slot_unbonding_count,
  slot_active_validator_count, slot_safety_floor, slot_validator_addr, slot_unbonding,
  slot_validator_stake, slot_validator_pubkey, slot_validator_status, slot_validator_unbond_height,
  slot_validator_by_addr, u256_to_u64, u256_to_u128, u256_to_u8,
}
use call_node.Validator.Types.{
  ValidatorError, insufficient_balance, escrow_overflow, below_minimum_stake, already_staked,
  not_a_validator, id_mismatch, already_unbonding, below_safety_floor, invalid_pubkey,
  validator_count_overflow, call_asset_id, min_self_stake, staking_escrow, pack_entry,
}
use call_node.Validator.Ops.{stake, unstake}

abbrev pub caller_slot : ℕ → Slot
caller_slot caller = slot_balance call_asset_id caller

abbrev pub escrow_slot : Slot
escrow_slot = slot_balance call_asset_id staking_escrow

-- The storage after a stake of `amount`.
abbrev pub staked : ℕ → ℕ → ℕ → Storage → Storage
staked pubkey amount caller st =
    let id = u256_to_u64 (st slot_validator_count) + 1 in
    store slot_active_validator_count (u256_to_u64 (st slot_active_validator_count) + 1) (
      store (slot_validator_status caller) 1 (
        store (slot_validator_pubkey caller) pubkey (
          store (slot_validator_stake caller) amount (
            store (slot_validator_addr id) caller (
              store (slot_validator_by_addr caller) id (
                store slot_validator_count id (
                  store escrow_slot (st escrow_slot + amount)
                    (store (caller_slot caller) (st (caller_slot caller) - amount) st))))))))

-- What `stake` comes to. The checks come before every write; the two errors that come after a
-- write are overflows of the escrow's balance and of the counters.
abbrev pub Stakes : ℕ → ℕ → ℕ → Storage → Result ValidatorError (Unit {0}) × Storage → Type 0
Stakes pubkey amount caller st (err e, st') =
    (e ≡ below_minimum_stake) × (amount < min_self_stake) × (st' ≡ st)
    ⊎ (e ≡ invalid_pubkey) × (pubkey ≡ 0) × (st' ≡ st)
    ⊎ (e ≡ already_staked) × (u256_to_u64 (st (slot_validator_by_addr caller)) ≢ 0) × (st' ≡ st)
    ⊎ (e ≡ insufficient_balance)
      × ((st (caller_slot caller) < amount) ⊎ (u128_max < st (caller_slot caller)))
      × (st' ≡ st)
    ⊎ (e ≡ escrow_overflow)
      × (u128_max < st escrow_slot + amount)
      × (st' ≡ store (caller_slot caller) (st (caller_slot caller) - amount) st)
    ⊎ (e ≡ validator_count_overflow)
      × ((u64_max ≤ u256_to_u64 (st slot_validator_count))
          ⊎ (u64_max ≤ u256_to_u64 (st slot_active_validator_count)))
Stakes pubkey amount caller st (ok _, st') =
    (min_self_stake ≤ amount)
    × (pubkey ≢ 0)
    × (u256_to_u64 (st (slot_validator_by_addr caller)) ≡ 0)
    × (amount ≤ st (caller_slot caller))
    × (st' ≡ staked pubkey amount caller st)

pub stake-Stakes :
    (pubkey amount caller : ℕ) (st : Storage)
    → caller ≢ staking_escrow
    → Stakes pubkey amount caller st (stake pubkey amount caller st)
unfolding stake
stake-Stakes pubkey amount caller st ne = ground arith

-- A stake that succeeds has met no overflow.
pub stake_fits :
    (pubkey amount caller : ℕ) (st : Storage)
    → caller ≢ staking_escrow
    → (stake pubkey amount caller st).0 ≡ ok tt
    → (amount ≤ st (caller_slot caller))
      × (st (caller_slot caller) ≤ u128_max)
      × (st escrow_slot + amount ≤ u128_max)
      × (u256_to_u64 (st slot_validator_count) < u64_max)
unfolding stake
stake_fits pubkey amount caller st ne h = ground arith

-- The storage after an unstake at a block.
abbrev pub unstaked : ℕ → ℕ → Storage → Storage
unstaked caller current_block st =
    let n = u256_to_u64 (st slot_unbonding_count) in
    store slot_unbonding_count (n + 1) (
      store (slot_unbonding n)
        (pack_entry (u256_to_u64 (st (slot_validator_by_addr caller)))
          (u256_to_u128 (st (slot_validator_stake caller))))
        (store (slot_validator_unbond_height caller) current_block (
          store (slot_validator_status caller) 2 (
            store slot_active_validator_count (u256_to_u64 (st slot_active_validator_count) - 1)
              st))))

-- What `unstake` comes to. But for a full queue, an error leaves the storage untouched.
abbrev pub Unstakes : ℕ → ℕ → ℕ → Storage → Result ValidatorError (Unit {0}) × Storage → Type 0
Unstakes validator_id caller current_block st (err e, st') =
    (e ≡ not_a_validator) × (u256_to_u64 (st (slot_validator_by_addr caller)) ≡ 0) × (st' ≡ st)
    ⊎ (e ≡ id_mismatch)
      × (u256_to_u64 (st (slot_validator_by_addr caller)) ≢ validator_id)
      × (st' ≡ st)
    ⊎ (e ≡ already_unbonding) × (u256_to_u8 (st (slot_validator_status caller)) ≢ 1) × (st' ≡ st)
    ⊎ (e ≡ below_safety_floor)
      × (u256_to_u64 (st slot_active_validator_count) ≤ u256_to_u64 (st slot_safety_floor))
      × (st' ≡ st)
    ⊎ (e ≡ validator_count_overflow) × (u64_max ≤ u256_to_u64 (st slot_unbonding_count))
Unstakes validator_id caller current_block st (ok _, st') =
    (u256_to_u64 (st (slot_validator_by_addr caller)) ≡ validator_id)
    × (validator_id ≢ 0)
    × (u256_to_u8 (st (slot_validator_status caller)) ≡ 1)
    × (u256_to_u64 (st slot_active_validator_count) ≡ 0
        ⊎ u256_to_u64 (st slot_safety_floor) < u256_to_u64 (st slot_active_validator_count))
    × (u256_to_u64 (st slot_unbonding_count) < u64_max)
    × (st' ≡ unstaked caller current_block st)

pub unstake-Unstakes :
    (validator_id caller current_block : ℕ) (st : Storage)
    → Unstakes validator_id caller current_block st (unstake validator_id caller current_block st)
unfolding unstake
unstake-Unstakes validator_id caller current_block st = ground arith

-- A validator that leaves never takes the number of active validators below the safety floor.
pub unstake_floor :
    (validator_id caller current_block : ℕ) (st : Storage)
    → u256_to_u64 (st slot_safety_floor) ≤ u256_to_u64 (st slot_active_validator_count)
    → let st' = (unstake validator_id caller current_block st).1 in
      u256_to_u64 (st' slot_safety_floor) ≤ u256_to_u64 (st' slot_active_validator_count)
unfolding unstake
unstake_floor validator_id caller current_block st h = ground arith
