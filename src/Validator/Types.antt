-- ===== src/Validator/Types.antt =====
-- crates/validator/src/lib.rs: the errors, the constants and the queue's packed entries.
use call_node.Prelude.{ℕ, ◌+◌, ◌*◌, ◌/◌, ◌%◌, ◌^◌}

pub data ValidatorError : Type 0 where
  insufficient_balance balance_overflow escrow_overflow escrow_underflow : ValidatorError
  below_minimum_stake already_staked not_a_validator id_mismatch : ValidatorError
  already_unbonding not_unbonding unbonding_period_not_elapsed : ValidatorError
  no_unbonding_request below_safety_floor invalid_pubkey : ValidatorError
  validator_count_overflow : ValidatorError

abbrev pub call_asset_id : ℕ
call_asset_id = 1

abbrev pub min_self_stake : ℕ
min_self_stake = 1_000_000

abbrev pub unbonding_period_blocks : ℕ
unbonding_period_blocks = 120_960

abbrev pub staking_escrow : ℕ
staking_escrow = 0xace

-- An entry of the unbonding queue: the id in bytes 8 to 16, the amount in bytes 16 to 32.
abbrev pub pack_entry : ℕ → ℕ → ℕ
pack_entry id stake = id * 2 ^ 128 + stake

abbrev pub entry_id : ℕ → ℕ
entry_id packed = packed / 2 ^ 128 % 2 ^ 64

abbrev pub entry_amount : ℕ → ℕ
entry_amount packed = packed % 2 ^ 128
