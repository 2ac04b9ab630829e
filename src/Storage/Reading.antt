-- ===== src/Storage/Reading.antt =====
-- The slot of an account read back from the bytes that are hashed for it.
use mathlib.Core.List.{}
use mathlib.Core.Path.{}
use call_node.Prelude.{
  ℕ, zero, suc, Bool, true, false, ◌&&◌, ==_ne, ◌+◌, ◌<◌, ◌≡◌, refl, ap, List, [], ◌∷◌, ◌++◌, arith,
  ◌==◌, if◌then◌else◌, length, length-append, take, drop, ascii, from_be_bytes,
}
use call_node.Storage.Slots.{
  Slot, MetaKey, slot_balance, slot_allowance, slot_asset_meta, erc20_binding_slot,
  slot_validator_stake, slot_validator_pubkey, slot_validator_status, slot_validator_unbond_height,
  slot_validator_by_addr, slot_compliance, slot_compliance_admin,
}
use call_node.Storage.Layout.{asset_address, validator_address, suffix_text}

abbrev pub same_bytes : List ℕ → List ℕ → Bool
same_bytes [] [] = true
same_bytes [] (b ∷ bs) = false
same_bytes (a ∷ rest) [] = false
same_bytes (a ∷ rest) (b ∷ bs) = a == b && same_bytes rest bs

-- The key that a text names.
abbrev pub meta_key_named : List ℕ → List MetaKey → MetaKey
meta_key_named text [] = MetaKey.symbol
meta_key_named text (k ∷ ks) =
    if same_bytes (ascii (suffix_text k)) text then k else meta_key_named text ks

abbrev pub keys : List MetaKey
keys =
    MetaKey.symbol ∷ MetaKey.name ∷ MetaKey.decimals ∷ MetaKey.issuer ∷ MetaKey.max_supply
    ∷ MetaKey.supply ∷ MetaKey.status ∷ MetaKey.registered_at ∷ MetaKey.evm_contract
    ∷ MetaKey.dominance ∷ MetaKey.has_erc20 ∷ MetaKey.compliance ∷ []

pub meta_key_text : (k : MetaKey) → meta_key_named (ascii (suffix_text k)) keys ≡ k
meta_key_text MetaKey.symbol = refl
meta_key_text MetaKey.name = refl
meta_key_text MetaKey.decimals = refl
meta_key_text MetaKey.issuer = refl
meta_key_text MetaKey.max_supply = refl
meta_key_text MetaKey.supply = refl
meta_key_text MetaKey.status = refl
meta_key_text MetaKey.registered_at = refl
meta_key_text MetaKey.evm_contract = refl
meta_key_text MetaKey.dominance = refl
meta_key_text MetaKey.has_erc20 = refl
meta_key_text MetaKey.compliance = refl

pub suffix_fits : (k : MetaKey) → length (ascii (suffix_text k)) < 14
suffix_fits MetaKey.symbol = omega arith
suffix_fits MetaKey.name = omega arith
suffix_fits MetaKey.decimals = omega arith
suffix_fits MetaKey.issuer = omega arith
suffix_fits MetaKey.max_supply = omega arith
suffix_fits MetaKey.supply = omega arith
suffix_fits MetaKey.status = omega arith
suffix_fits MetaKey.registered_at = omega arith
suffix_fits MetaKey.evm_contract = omega arith
suffix_fits MetaKey.dominance = omega arith
suffix_fits MetaKey.has_erc20 = omega arith
suffix_fits MetaKey.compliance = omega arith

take_front : (n : ℕ) (xs ys : List ℕ) → length xs ≡ n → take n (xs ++ ys) ≡ xs
take_front zero [] ys h = refl
take_front (suc n) [] ys h = absurd (omega (arith, h))
take_front zero (x ∷ xs) ys h = absurd (omega (arith, h))
take_front (suc n) (x ∷ xs) ys h = ap (λ zs. x ∷ zs) (take_front n xs ys (omega (arith, h)))

drop_front : (n : ℕ) (xs ys : List ℕ) → length xs ≡ n → drop n (xs ++ ys) ≡ ys
drop_front zero [] ys h = refl
drop_front (suc n) [] ys h = absurd (omega (arith, h))
drop_front zero (x ∷ xs) ys h = absurd (omega (arith, h))
drop_front (suc n) (x ∷ xs) ys h = drop_front n xs ys (omega (arith, h))

-- The slot whose bytes these are, under each contract.
abbrev pub asset_slot : List ℕ → Slot
asset_slot bs =
    let id = from_be_bytes (take 8 bs) in
    let rest = drop 8 bs in
    if length bs == 28
    then slot_balance id (from_be_bytes rest)
    else if length bs == 48
    then slot_allowance id (from_be_bytes (take 20 rest)) (from_be_bytes (drop 20 rest))
    else if length bs == 44
    then erc20_binding_slot (from_be_bytes (drop 24 bs))
    else slot_asset_meta id (meta_key_named rest keys)

abbrev pub starts_with : ℕ → List ℕ → Bool
starts_with b [] = false
starts_with b (c ∷ cs) = c == b

abbrev pub validator_slot : List ℕ → Slot
validator_slot bs =
    let a = from_be_bytes (take 20 bs) in
    if length bs == 25
    then slot_validator_stake a
    else if length bs == 29
    then slot_validator_unbond_height a
    else if length bs == 32
    then slot_validator_by_addr a
    else if starts_with 112 (drop 20 bs)
    then slot_validator_pubkey a
    else slot_validator_status a

abbrev pub compliance_slot : List ℕ → Slot
compliance_slot bs =
    if length bs == 20 then slot_compliance (from_be_bytes bs) else slot_compliance_admin

abbrev pub slot_of : ℕ × List ℕ → Slot
slot_of (contract, bs) =
    if contract == asset_address
    then asset_slot bs
    else if contract == validator_address
    then validator_slot bs
    else compliance_slot bs

module _ (xs ys : List ℕ) where
  two_lengths : (n m : ℕ) → length xs ≡ n → length ys ≡ m → length (xs ++ ys) ≡ n + m
  two_lengths n m h k = omega (arith, length-append xs ys, h, k)

pub asset_slot-balance :
    (xs ys : List ℕ)
    → length xs ≡ 8
    → length ys ≡ 20
    → asset_slot (xs ++ ys) ≡ slot_balance (from_be_bytes xs) (from_be_bytes ys)
asset_slot-balance xs ys h k =
    rw (two_lengths xs ys 8 20 h k, take_front 8 xs ys h, drop_front 8 xs ys h) refl

pub asset_slot-allowance :
    (xs ys zs : List ℕ)
    → length xs ≡ 8
    → length ys ≡ 20
    → length zs ≡ 20
    → asset_slot (xs ++ (ys ++ zs))
      ≡ slot_allowance (from_be_bytes xs) (from_be_bytes ys) (from_be_bytes zs)
asset_slot-allowance xs ys zs h k l =
    rw
      (
        two_lengths xs (ys ++ zs) 8 40 h (two_lengths ys zs 20 20 k l),
        take_front 8 xs (ys ++ zs) h,
        drop_front 8 xs (ys ++ zs) h,
        take_front 20 ys zs k,
        drop_front 20 ys zs k,
      )
      refl

pub asset_slot-binding :
    (xs ys : List ℕ)
    → length xs ≡ 24
    → length ys ≡ 20
    → asset_slot (xs ++ ys) ≡ erc20_binding_slot (from_be_bytes ys)
asset_slot-binding xs ys h k = rw (two_lengths xs ys 24 20 h k, drop_front 24 xs ys h) refl

pub asset_slot-meta :
    (xs ys : List ℕ)
    → length xs ≡ 8
    → length ys < 14
    → asset_slot (xs ++ ys) ≡ slot_asset_meta (from_be_bytes xs) (meta_key_named ys keys)
asset_slot-meta xs ys h k =
    let n = length-append xs ys in
    rw
      (
        ==_ne (length (xs ++ ys)) 28 (λ e. omega (arith, e, n, h, k)),
        ==_ne (length (xs ++ ys)) 48 (λ e. omega (arith, e, n, h, k)),
        ==_ne (length (xs ++ ys)) 44 (λ e. omega (arith, e, n, h, k)),
        take_front 8 xs ys h,
        drop_front 8 xs ys h,
      )
      refl

pub validator_slot-record :
    (xs ys : List ℕ)
    → length xs ≡ 20
    → validator_slot (xs ++ ys) ≡ (
        if 20 + length ys == 25
        then slot_validator_stake (from_be_bytes xs)
        else if 20 + length ys == 29
        then slot_validator_unbond_height (from_be_bytes xs)
        else if 20 + length ys == 32
        then slot_validator_by_addr (from_be_bytes xs)
        else if starts_with 112 ys
        then slot_validator_pubkey (from_be_bytes xs)
        else slot_validator_status (from_be_bytes xs))
validator_slot-record xs ys h =
    rw (two_lengths xs ys 20 (length ys) h refl, take_front 20 xs ys h, drop_front 20 xs ys h) refl
