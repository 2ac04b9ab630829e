-- ===== src/Validator/Tests.antt =====
-- Runs of the staking operations on small storages, and the theorems at those inputs.
use call_node.Prelude.{◌≡◌, refl, arith, ok, err}
use call_node.Storage.{
  Storage, store, empty_storage, slot_balance, slot_active_validator_count, slot_validator_count,
  slot_unbonding_count, slot_unbonding, slot_validator_by_addr, slot_validator_status,
  slot_validator_stake, slot_validator_unbond_height,
}
use call_node.Validator.Types.{pack_entry, below_minimum_stake}
use call_node.Validator.Ops.{
  stake, unstake, find_entry, remove_from_unbonding_queue, claim_unbonded, slash_stake,
}
use call_node.Validator.Staking.{escrow_slot, caller_slot}
use call_node.Validator.Queue.{Removes, remove_from_unbonding_queue-Removes}
use call_node.Validator.Claims.{IsCleared}
use call_node.Validator.Lifecycle.{IsUnqueued, claim-unstake-stake}

-- Account 5 has ten million; account 6 holds id 1, unbonding since block 10 with two million;
-- account 7 holds id 2 and is active.
abbrev opening : Storage
opening = store (slot_balance 1 5) 10_000_000 (
    store escrow_slot 5_000_000 (
      store slot_validator_count 2 (
        store slot_active_validator_count 1 (
          store slot_unbonding_count 1 (
            store (slot_unbonding 0) (pack_entry 1 2_000_000) (
              store (slot_validator_by_addr 6) 1 (
                store (slot_validator_status 6) 2 (
                  store (slot_validator_stake 6) 2_000_000 (
                    store (slot_validator_unbond_height 6) 10 (
                      store (slot_validator_by_addr 7) 2 (
                        store (slot_validator_status 7) 1
                          (store (slot_validator_stake 7) 3_000_000 empty_storage))))))))))))

stake_too_little : stake 1 999_999 5 opening ≡ (err below_minimum_stake, opening)
unfolding stake
stake_too_little = refl

claim_in_time : (claim_unbonded 1 6 120_970 opening).0 ≡ ok 2_000_000
unfolding claim_unbonded remove_from_unbonding_queue find_entry
claim_in_time = refl

slash_unbonding : (slash_stake 6 opening).1 slot_unbonding_count ≡ 0
unfolding slash_stake remove_from_unbonding_queue find_entry
slash_unbonding = refl

remove_from_unbonding_queue-Removes_example :
    Removes 1 opening (remove_from_unbonding_queue 1 opening)
remove_from_unbonding_queue-Removes_example = remove_from_unbonding_queue-Removes 1 opening

opening-IsUnqueued : IsUnqueued 3 opening
opening-IsUnqueued j lt = ground arith

claim-unstake-stake_example :
    let st2 = (unstake 3 5 100 (stake 99 4_000_000 5 opening).1).1 in
    let (claimed, st3) = claim_unbonded 3 5 130_000 st2 in
    (claimed ≡ ok 4_000_000)
    × (st3 (caller_slot 5) ≡ opening (caller_slot 5))
    × (st3 escrow_slot ≡ opening escrow_slot)
    × IsCleared 5 3 st3
unfolding stake unstake
claim-unstake-stake_example =
    claim-unstake-stake 99 4_000_000 5 100 130_000 opening (omega arith) (omega arith)
      opening-IsUnqueued (omega arith) (omega arith) refl refl
