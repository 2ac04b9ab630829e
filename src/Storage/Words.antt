-- ===== src/Storage/Words.antt =====
-- The conversions between U256 words and narrower integers: crates/precompile/src/utils.rs.
use call_node.Prelude.{ℕ, ◌%◌, ◌^◌}

abbrev pub u256_to_u128 : ℕ → ℕ
u256_to_u128 v = v % 2 ^ 128

abbrev pub u256_to_u64 : ℕ → ℕ
u256_to_u64 v = v % 2 ^ 64

abbrev pub u256_to_u8 : ℕ → ℕ
u256_to_u8 v = v % 2 ^ 8

abbrev pub u256_to_address : ℕ → ℕ
u256_to_address v = v % 2 ^ 160

-- Widening keeps the number.
abbrev pub u128_to_u256 : ℕ → ℕ
u128_to_u256 v = v

abbrev pub u64_to_u256 : ℕ → ℕ
u64_to_u256 v = v

abbrev pub u8_to_u256 : ℕ → ℕ
u8_to_u256 v = v

abbrev pub address_to_u256 : ℕ → ℕ
address_to_u256 a = a
