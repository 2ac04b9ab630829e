-- ===== src/Validator/Ops.antt =====
-- crates/validator/src/lib.rs: the operations of `ValidatorStorage`.
use call_node.Prelude.{
  ℕ, zero, suc, ◌-◌, ◌&&◌, Option, none, some, not, ltb, ◌==◌, if◌then◌else◌, u64_max, checked_add,
}
use call_node.Storage.{
  M, Storage, load, return, throw_if, ok_or, gets, map_err, ◌>>=◌, ◌>>◌, read, write,
  slot_validator_count, slot_unbonding_count, slot_active_validator_count, slot_safety_floor,
  slot_unbonding_period_blocks, slot_validator_addr, slot_unbonding, slot_validator_stake,
  slot_validator_pubkey, slot_validator_status, slot_validator_unbond_height,
  slot_validator_by_addr, u256_to_u64, u256_to_u128, u256_to_u8, u256_to_address, u64_to_u256,
  u128_to_u256, u8_to_u256, address_to_u256,
}
use call_node.Asset.Store.{add_balance, deduct_balance}
use call_node.Validator.Types.{
  ValidatorError, insufficient_balance, balance_overflow, escrow_overflow, escrow_underflow,
  below_minimum_stake, already_staked, not_a_validator, id_mismatch, already_unbonding,
  not_unbonding, unbonding_period_not_elapsed, no_unbonding_request, below_safety_floor,
  invalid_pubkey, validator_count_overflow, call_asset_id, min_self_stake, staking_escrow,
  pack_entry, entry_id, entry_amount,
}

abbrev pub Act : Type 0 → Type 0
Act = M ValidatorError

unfoldable pub read_validator_count : Act ℕ
read_validator_count = do return (u256_to_u64 (← read slot_validator_count))

unfoldable pub read_validator_id : ℕ → Act ℕ
read_validator_id addr = do return (u256_to_u64 (← read (slot_validator_by_addr addr)))

unfoldable pub read_validator_by_index : ℕ → Act ℕ
read_validator_by_index index = do return (u256_to_address (← read (slot_validator_addr index)))

unfoldable pub read_stake : ℕ → Act ℕ
read_stake addr = do return (u256_to_u128 (← read (slot_validator_stake addr)))

unfoldable pub read_status : ℕ → Act ℕ
read_status addr = do return (u256_to_u8 (← read (slot_validator_status addr)))

unfoldable pub read_pubkey : ℕ → Act ℕ
read_pubkey addr = read (slot_validator_pubkey addr)

unfoldable pub read_unbond_height : ℕ → Act ℕ
read_unbond_height addr = do return (u256_to_u64 (← read (slot_validator_unbond_height addr)))

unfoldable pub read_unbonding_count : Act ℕ
read_unbonding_count = do return (u256_to_u64 (← read slot_unbonding_count))

unfoldable pub read_active_validator_count : Act ℕ
read_active_validator_count = do return (u256_to_u64 (← read slot_active_validator_count))

unfoldable pub read_safety_floor : Act ℕ
read_safety_floor = do return (u256_to_u64 (← read slot_safety_floor))

unfoldable pub read_unbonding_period_blocks : Act ℕ
read_unbonding_period_blocks = do
  raw ← read slot_unbonding_period_blocks
  return (if u256_to_u64 raw == 0 then 120_960 else u256_to_u64 raw)

-- The public key is 32 bytes, read as one number.
unfoldable pub stake : ℕ → ℕ → ℕ → Act (Unit {0})
unfolding add_balance deduct_balance read_validator_id read_validator_count
    read_active_validator_count
stake pubkey amount caller = do
  throw_if (ltb amount min_self_stake) below_minimum_stake
  throw_if (pubkey == 0) invalid_pubkey
  existing_id ← read_validator_id caller
  throw_if (not (existing_id == 0)) already_staked
  map_err (deduct_balance call_asset_id caller amount) insufficient_balance
  map_err (add_balance call_asset_id staking_escrow amount) escrow_overflow
  count ← read_validator_count
  validator_id ← ok_or (checked_add u64_max count 1) validator_count_overflow
  write slot_validator_count (u64_to_u256 validator_id)
  write (slot_validator_by_addr caller) (u64_to_u256 validator_id)
  write (slot_validator_addr validator_id) (address_to_u256 caller)
  write (slot_validator_stake caller) (u128_to_u256 amount)
  write (slot_validator_pubkey caller) pubkey
  write (slot_validator_status caller) (u8_to_u256 1)
  active ← read_active_validator_count
  new_active ← ok_or (checked_add u64_max active 1) validator_count_overflow
  write slot_active_validator_count (u64_to_u256 new_active)

unfoldable pub unstake : ℕ → ℕ → ℕ → Act (Unit {0})
unfolding read_validator_id read_status read_active_validator_count read_safety_floor read_stake
    read_unbonding_count
unstake validator_id caller current_block = do
  stored_id ← read_validator_id caller
  throw_if (stored_id == 0) not_a_validator
  throw_if (not (stored_id == validator_id)) id_mismatch
  status ← read_status caller
  throw_if (not (status == 1)) already_unbonding
  active_count ← read_active_validator_count
  safety_floor ← read_safety_floor
  throw_if (ltb 0 active_count && ltb (active_count - 1) safety_floor) below_safety_floor
  stake ← read_stake caller
  write slot_active_validator_count (u64_to_u256 (active_count - 1))
  write (slot_validator_status caller) (u8_to_u256 2)
  write (slot_validator_unbond_height caller) (u64_to_u256 current_block)
  unbonding_count ← read_unbonding_count
  write (slot_unbonding unbonding_count) (pack_entry stored_id stake)
  new_unbonding_count ← ok_or (checked_add u64_max unbonding_count 1) validator_count_overflow
  write slot_unbonding_count (u64_to_u256 new_unbonding_count)

-- The loop over the queue: the index and the amount of the first entry with the id, among the
-- given number of entries from `i` on.
unfoldable pub find_entry : ℕ → ℕ → ℕ → Storage → Option (ℕ × ℕ)
find_entry zero i validator_id st = none
find_entry (suc n) i validator_id st =
    let rest = find_entry n (suc i) validator_id st in
    let packed = load (slot_unbonding i) st in
    if entry_id packed == validator_id then some (i, entry_amount packed) else rest

unfoldable pub remove_from_unbonding_queue : ℕ → Act ℕ
unfolding read_unbonding_count
remove_from_unbonding_queue validator_id = do
  unbonding_count ← read_unbonding_count
  found ← gets (find_entry unbonding_count 0 validator_id)
  entry ← ok_or found no_unbonding_request
  last ← read (slot_unbonding (unbonding_count - 1))
  (if ltb 1 unbonding_count && not (entry.0 == unbonding_count - 1)
      then write (slot_unbonding entry.0) last
      else return tt)
  write (slot_unbonding (unbonding_count - 1)) 0
  write slot_unbonding_count (u64_to_u256 (unbonding_count - 1))
  return entry.1

unfoldable pub clear_validator_state : ℕ → ℕ → Act (Unit {0})
clear_validator_state addr validator_id = do
  write (slot_validator_by_addr addr) 0
  write (slot_validator_stake addr) 0
  write (slot_validator_status addr) 0
  write (slot_validator_pubkey addr) 0
  write (slot_validator_unbond_height addr) 0
  write (slot_validator_addr validator_id) 0

unfoldable pub claim_unbonded : ℕ → ℕ → ℕ → Act ℕ
unfolding read_validator_id read_status read_unbond_height read_unbonding_period_blocks add_balance
    deduct_balance clear_validator_state
claim_unbonded validator_id caller current_block = do
  stored_id ← read_validator_id caller
  throw_if (stored_id == 0) not_a_validator
  throw_if (not (stored_id == validator_id)) id_mismatch
  status ← read_status caller
  throw_if (not (status == 2)) not_unbonding
  unbond_height ← read_unbond_height caller
  unbonding_period ← read_unbonding_period_blocks
  unlock_block ←
      ok_or (checked_add u64_max unbond_height unbonding_period) unbonding_period_not_elapsed
  throw_if (ltb current_block unlock_block) unbonding_period_not_elapsed
  amount ← remove_from_unbonding_queue stored_id
  map_err (deduct_balance call_asset_id staking_escrow amount) escrow_underflow
  map_err (add_balance call_asset_id caller amount) balance_overflow
  clear_validator_state caller stored_id
  return amount

unfoldable pub slash_stake : ℕ → Act ℕ
unfolding read_validator_id read_stake read_status read_active_validator_count deduct_balance
    clear_validator_state
slash_stake validator = do
  validator_id ← read_validator_id validator
  (if validator_id == 0 then return 0 else (do
    stake ← read_stake validator
    (if ltb 0 stake
        then map_err (deduct_balance call_asset_id staking_escrow stake) escrow_underflow
        else return tt)
    status ← read_status validator
    (if status == 2 then remove_from_unbonding_queue validator_id else return 0)
    clear_validator_state validator validator_id
    (if status == 1
        then (do
          active ← read_active_validator_count
          write slot_active_validator_count (u64_to_u256 (active - 1)))
        else return tt)
    return stake))
