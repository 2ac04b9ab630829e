-- ===== src/Asset/Registration.antt =====
-- A registered asset reads back as it was registered, under an id that is new.
use call_node.Prelude.{
  ℕ, zero, suc, ◌+◌, ◌-◌, ◌≤◌, ◌<◌, ◌^◌, ◌≡◌, refl, ◌≢◌, ◌⊎◌, true, List, [], ◌∷◌, ◌++◌, arith,
  ◌==◌, ◌∙◌, ap, All, if◌then◌else◌, u64_max, ok, length, replicate, length-append,
  length-replicate, to_be_bytes, is_utf8, IsByte, to_be_bytes-from_be_bytes, All-append,
}
use call_node.Storage.{
  Storage, slot_asset_meta, MetaKey, next_asset_id, u256_to_u8, u256_to_u128, u256_to_address,
  store,
}
use call_node.Asset.Types.{AssetMeta}
use call_node.Asset.Store.{read_meta, before_zero, text_word}
use call_node.Asset.Registry.{Registration, register}

-- A text that fits a word and holds no zero byte.
abbrev IsTextByte : ℕ → Type 0
IsTextByte b = (b < 256) × (b ≢ 0)

pub record IsShortText (bs : List ℕ) : Type 0 where
  pub fits : length bs ≤ 32
  pub no_zero : All IsTextByte bs
  pub utf8 : is_utf8 bs ≡ true

All-IsByte : (bs : List ℕ) → All IsTextByte bs → All IsByte bs
All-IsByte [] h = tt
All-IsByte (b ∷ bs) h = (h.0.0, All-IsByte bs h.1)

replicate-IsByte : (n : ℕ) → All IsByte (replicate n 0)
replicate-IsByte zero = tt
replicate-IsByte (suc n) = (omega arith, replicate-IsByte n)

before_zero-append :
    (bs : List ℕ) (n : ℕ) → All IsTextByte bs → before_zero (bs ++ replicate n 0) ≡ bs
unfolding before_zero
before_zero-append [] zero h = refl
before_zero-append [] (suc n) h = refl
before_zero-append (b ∷ bs) n h = ground (arith, before_zero-append bs n h.1)

-- A short text survives being packed into a word and read back.
pub before_zero-text_word :
    (bs : List ℕ) → IsShortText bs → before_zero (to_be_bytes 32 (text_word bs)) ≡ bs
unfolding text_word
before_zero-text_word bs h =
    ap before_zero (
      to_be_bytes-from_be_bytes 32 (bs ++ replicate (32 - length bs) 0)
        (omega (
          arith,
          h.fits,
          length-append bs (replicate (32 - length bs) 0),
          length-replicate {A = ℕ} (32 - length bs) 0,
        ))
        (All-append IsByte bs (replicate (32 - length bs) 0) (All-IsByte bs h.no_zero)
          (replicate-IsByte (32 - length bs))))
    ∙ before_zero-append bs (32 - length bs) h.no_zero

-- What a registration is given that is accepted and can be told from an absent asset.
pub record IsRegistrable (r : Registration) : Type 0 where
  pub symbol : IsShortText r.symbol
  pub name : IsShortText r.name
  pub decimals : r.decimals ≤ 18
  pub max_supply : r.max_supply < 2 ^ 128
  pub issuer : r.issuer < 2 ^ 160
  pub named : (r.issuer ≢ 0) ⊎ (r.symbol ≢ [])

-- The id that the next registration takes.
abbrev pub fresh_id : Storage → ℕ
fresh_id st = if st next_asset_id == 0 then 1 else st next_asset_id

-- The metadata of a new asset. Registering does not touch the two last fields.
abbrev pub registered_meta : Registration → Storage → AssetMeta
registered_meta r st = record {
  symbol = r.symbol;
  name = r.name;
  decimals = r.decimals;
  issuer = r.issuer;
  max_supply = r.max_supply;
  supply = 0;
  status = 0;
  registered_at = r.registered_at;
  evm_contract = u256_to_address (st (slot_asset_meta (fresh_id st) MetaKey.evm_contract));
  dominance = u256_to_u8 (st (slot_asset_meta (fresh_id st) MetaKey.dominance));
}

-- The storage after a registration under `id`.
abbrev base_meta : ℕ → Registration → Storage → Storage
base_meta id r st = store (slot_asset_meta id MetaKey.registered_at) r.registered_at (
    store (slot_asset_meta id MetaKey.compliance) 0 (
      store (slot_asset_meta id MetaKey.status) 0 (
        store (slot_asset_meta id MetaKey.supply) 0 (
          store (slot_asset_meta id MetaKey.max_supply) r.max_supply (
            store (slot_asset_meta id MetaKey.issuer) r.issuer (
              store (slot_asset_meta id MetaKey.decimals) r.decimals (
                store (slot_asset_meta id MetaKey.name) (text_word r.name) (
                  store (slot_asset_meta id MetaKey.symbol) (text_word r.symbol)
                    (store next_asset_id (id + 1) st)))))))))

abbrev pub registered : Registration → Storage → Storage
registered r st =
    store (slot_asset_meta (fresh_id st) MetaKey.has_erc20) 0 (base_meta (fresh_id st) r st)

register-registered :
    (r : Registration) (st : Storage)
    → IsRegistrable r
    → st next_asset_id < u64_max
    → register r st ≡ (ok (fresh_id st), registered r st)
unfolding register
register-registered r st h room = ground (arith, h.symbol.fits, h.name.fits)

-- What the slots of an asset must hold for `read_meta` to give `m`.
record Holds (id : ℕ) (m : AssetMeta) (st : Storage) : Type 0 where
  symbol_word : st (slot_asset_meta id MetaKey.symbol) ≡ text_word m.symbol
  name_word : st (slot_asset_meta id MetaKey.name) ≡ text_word m.name
  decimals_word : u256_to_u8 (st (slot_asset_meta id MetaKey.decimals)) ≡ m.decimals
  issuer_word : u256_to_address (st (slot_asset_meta id MetaKey.issuer)) ≡ m.issuer
  max_supply_word : u256_to_u128 (st (slot_asset_meta id MetaKey.max_supply)) ≡ m.max_supply
  supply_word : u256_to_u128 (st (slot_asset_meta id MetaKey.supply)) ≡ m.supply
  status_word : u256_to_u8 (st (slot_asset_meta id MetaKey.status)) ≡ m.status
  registered_at_word : st (slot_asset_meta id MetaKey.registered_at) ≡ m.registered_at
  evm_contract_word :
      u256_to_address (st (slot_asset_meta id MetaKey.evm_contract)) ≡ m.evm_contract
  dominance_word : u256_to_u8 (st (slot_asset_meta id MetaKey.dominance)) ≡ m.dominance

read_meta-Holds :
    (id : ℕ) (m : AssetMeta) (st : Storage)
    → Holds id m st
    → IsShortText m.symbol
    → IsShortText m.name
    → (m.issuer ≢ 0) ⊎ (m.symbol ≢ [])
    → read_meta id st ≡ (ok m, st)
unfolding read_meta
read_meta-Holds id m st h s n named =
    ground (arith, before_zero-text_word m.symbol s, before_zero-text_word m.name n, s.utf8, n.utf8)

Holds-registered :
    (r : Registration) (st : Storage)
    → IsRegistrable r
    → Holds (fresh_id st) (registered_meta r st) (registered r st)
Holds-registered r st h = ground arith

-- Registering an asset succeeds, where its symbol and name are UTF-8 of at most 32 bytes without a
-- zero byte, it has at most 18 decimals, its issuer is not zero or its symbol is not empty, and the
-- next id is below the greatest u64; reading the new asset gives what was registered, with no supply.
pub read_meta-register :
    (r : Registration) (st : Storage)
    → IsRegistrable r
    → st next_asset_id < u64_max
    → let (res, st') = register r st in
      (res ≡ ok (fresh_id st)) × (read_meta (fresh_id st) st' ≡ (ok (registered_meta r st), st'))
read_meta-register r st h room = rw (register-registered r st h room) (
  refl,
  read_meta-Holds (fresh_id st) (registered_meta r st) (registered r st) (Holds-registered r st h)
      h.symbol h.name h.named,
)
