-- ===== src/Storage/Separation.antt =====
-- The slots of the accounts (balances, allowances, metadata and bindings of assets, the records of
-- the validators by address, compliance) are told apart by the bytes that are hashed for them.
use mathlib.Core.List.{flatten, append-nil}
use mathlib.Core.Path.{ap₂}
use call_node.Prelude.{
  ℕ, ◌^◌, ◌<◌, ◌≡◌, refl, ap, sym, ◌∙◌, List, [], ◌++◌, ascii, length-to_be_bytes,
  from_be_bytes-to_be_bytes,
}
use call_node.Storage.Slots.{
  Slot, slot_balance, slot_allowance, slot_asset_meta, erc20_binding_slot, slot_validator_stake,
  slot_validator_pubkey, slot_validator_status, slot_validator_unbond_height,
  slot_validator_by_addr, slot_compliance, slot_compliance_admin,
}
use call_node.Storage.Layout.{
  asset_address, validator_address, compliance_address, id_bytes, address_bytes, suffix_text,
  storage_slot, location,
}
use call_node.Storage.Reading.{
  meta_key_text, suffix_fits, slot_of, asset_slot-balance, asset_slot-allowance, asset_slot-binding,
  asset_slot-meta, validator_slot-record,
}

-- A slot of an account, with an id of 8 bytes and addresses of 20.
abbrev pub IsAccountSlot : Slot → Type 0
IsAccountSlot (slot_balance id a) = (id < 256 ^ 8) × (a < 256 ^ 20)
IsAccountSlot (slot_allowance id o s) = (id < 256 ^ 8) × (o < 256 ^ 20) × (s < 256 ^ 20)
IsAccountSlot (slot_asset_meta id k) = id < 256 ^ 8
IsAccountSlot (erc20_binding_slot c) = c < 256 ^ 20
IsAccountSlot (slot_validator_stake a) = a < 256 ^ 20
IsAccountSlot (slot_validator_pubkey a) = a < 256 ^ 20
IsAccountSlot (slot_validator_status a) = a < 256 ^ 20
IsAccountSlot (slot_validator_unbond_height a) = a < 256 ^ 20
IsAccountSlot (slot_validator_by_addr a) = a < 256 ^ 20
IsAccountSlot (slot_compliance a) = a < 256 ^ 20
IsAccountSlot slot_compliance_admin = Unit
IsAccountSlot _ = ⊥

-- The contract of such a slot, and the bytes that are hashed for it.
abbrev pub hashed : Slot → ℕ × List ℕ
hashed (slot_balance id a) = (asset_address, id_bytes id ++ address_bytes a)
hashed (slot_allowance id o s) =
    (asset_address, id_bytes id ++ (address_bytes o ++ address_bytes s))
hashed (slot_asset_meta id k) = (asset_address, id_bytes id ++ ascii (suffix_text k))
hashed (erc20_binding_slot c) = (asset_address, ascii "call:asset:erc20_binding" ++ address_bytes c)
hashed (slot_validator_stake a) = (validator_address, address_bytes a ++ ascii "stake")
hashed (slot_validator_pubkey a) = (validator_address, address_bytes a ++ ascii "pubkey")
hashed (slot_validator_status a) = (validator_address, address_bytes a ++ ascii "status")
hashed (slot_validator_unbond_height a) = (validator_address, address_bytes a ++ ascii "unbond_at")
hashed (slot_validator_by_addr a) = (validator_address, address_bytes a ++ ascii "validator_id")
hashed (slot_compliance a) = (compliance_address, address_bytes a)
hashed slot_compliance_admin = (compliance_address, ascii "admin")
hashed _ = (0, [])

slot_of-hashed : (p : Slot) → IsAccountSlot p → slot_of (hashed p) ≡ p
slot_of-hashed (slot_balance id a) h =
    asset_slot-balance (id_bytes id) (address_bytes a) (length-to_be_bytes 8 id)
      (length-to_be_bytes 20 a)
    ∙ ap₂ slot_balance (from_be_bytes-to_be_bytes 8 id h.0) (from_be_bytes-to_be_bytes 20 a h.1)
slot_of-hashed (slot_allowance id o s) h =
    asset_slot-allowance (id_bytes id) (address_bytes o) (address_bytes s) (length-to_be_bytes 8 id)
      (length-to_be_bytes 20 o) (length-to_be_bytes 20 s)
    ∙ rw
        (
          from_be_bytes-to_be_bytes 8 id h.0,
          from_be_bytes-to_be_bytes 20 o h.1,
          from_be_bytes-to_be_bytes 20 s h.2,
        )
        refl
slot_of-hashed (slot_asset_meta id k) h =
    asset_slot-meta (id_bytes id) (ascii (suffix_text k)) (length-to_be_bytes 8 id) (suffix_fits k)
    ∙ ap₂ slot_asset_meta (from_be_bytes-to_be_bytes 8 id h) (meta_key_text k)
slot_of-hashed (erc20_binding_slot c) h =
    asset_slot-binding (ascii "call:asset:erc20_binding") (address_bytes c) refl
      (length-to_be_bytes 20 c)
    ∙ ap erc20_binding_slot (from_be_bytes-to_be_bytes 20 c h)
slot_of-hashed (slot_validator_stake a) h =
    validator_slot-record (address_bytes a) (ascii "stake") (length-to_be_bytes 20 a)
    ∙ ap slot_validator_stake (from_be_bytes-to_be_bytes 20 a h)
slot_of-hashed (slot_validator_pubkey a) h =
    validator_slot-record (address_bytes a) (ascii "pubkey") (length-to_be_bytes 20 a)
    ∙ ap slot_validator_pubkey (from_be_bytes-to_be_bytes 20 a h)
slot_of-hashed (slot_validator_status a) h =
    validator_slot-record (address_bytes a) (ascii "status") (length-to_be_bytes 20 a)
    ∙ ap slot_validator_status (from_be_bytes-to_be_bytes 20 a h)
slot_of-hashed (slot_validator_unbond_height a) h =
    validator_slot-record (address_bytes a) (ascii "unbond_at") (length-to_be_bytes 20 a)
    ∙ ap slot_validator_unbond_height (from_be_bytes-to_be_bytes 20 a h)
slot_of-hashed (slot_validator_by_addr a) h =
    validator_slot-record (address_bytes a) (ascii "validator_id") (length-to_be_bytes 20 a)
    ∙ ap slot_validator_by_addr (from_be_bytes-to_be_bytes 20 a h)
slot_of-hashed (slot_compliance a) h =
    rw (length-to_be_bytes 20 a) (ap slot_compliance (from_be_bytes-to_be_bytes 20 a h))
slot_of-hashed slot_compliance_admin h = refl
slot_of-hashed _ h = absurd h

-- Account slots of the same contract and the same bytes are the same.
pub hashed_injective :
    (p q : Slot) → IsAccountSlot p → IsAccountSlot q → hashed p ≡ hashed q → p ≡ q
hashed_injective p q h k e = sym (slot_of-hashed p h) ∙ ap slot_of e ∙ slot_of-hashed q k

module _ (keccak256 : List ℕ → ℕ) where
  -- The location of an account slot is its contract and the hash of its bytes.
  pub location-hashed :
      (p : Slot) → IsAccountSlot p → location keccak256 p ≡ ((hashed p).0, keccak256 (hashed p).1)
  unfolding location storage_slot flatten
  location-hashed (slot_balance id a) h = rw append-nil refl
  location-hashed (slot_allowance id o s) h = rw append-nil refl
  location-hashed (slot_asset_meta id k) h = rw append-nil refl
  location-hashed (erc20_binding_slot c) h = rw append-nil refl
  location-hashed (slot_validator_stake a) h = rw append-nil refl
  location-hashed (slot_validator_pubkey a) h = rw append-nil refl
  location-hashed (slot_validator_status a) h = rw append-nil refl
  location-hashed (slot_validator_unbond_height a) h = rw append-nil refl
  location-hashed (slot_validator_by_addr a) h = rw append-nil refl
  location-hashed (slot_compliance a) h = rw append-nil refl
  location-hashed slot_compliance_admin h = refl
  location-hashed _ h = absurd h
