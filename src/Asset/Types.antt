-- ===== src/Asset/Types.antt =====
-- crates/asset/src/lib.rs: the errors and the metadata record. Text is a list of bytes.
use call_node.Prelude.{ℕ, List}
use call_node.Storage.{MetaKey}

-- The text of `InvalidMetadata`: a key that holds no UTF-8, or one given a text that is too long.
pub data MetadataFault : Type 0 where
  not_utf8 : MetaKey → MetadataFault
  exceeds_32_bytes : MetaKey → ℕ → MetadataFault

pub data AssetError : Type 0 where
  insufficient_balance balance_overflow supply_overflow supply_underflow : AssetError
  max_supply_exceeded not_issuer asset_not_found insufficient_allowance : AssetError
  compliance_failed asset_id_overflow : AssetError
  invalid_metadata : MetadataFault → AssetError
  invalid_decimals : ℕ → AssetError
  erc20_already_bound : (evm_contract : ℕ) → AssetError

pub record AssetMeta : Type 0 where
  pub symbol : List ℕ
  pub name : List ℕ
  pub decimals : ℕ
  pub issuer : ℕ
  pub max_supply : ℕ
  pub supply : ℕ
  pub status : ℕ
  pub registered_at : ℕ
  pub evm_contract : ℕ
  pub dominance : ℕ
