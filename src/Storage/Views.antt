-- ===== src/Storage/Views.antt =====
-- The map of `Slots` as a view of the storage that crates/protocol/src/storage_backend.rs keeps by
-- contract and word, through the locations of crates/precompile/src/storage.rs.
use mathlib.Core.Bool.{false≢true}
use call_node.Prelude.{
  ℕ, ◌≡◌, ap, sym, subst, ◌∙◌, true, ◌&&◌, List, arith, ◌==◌, if◌then◌else◌, Bool-cases, inl, inr,
}
use call_node.Storage.Slots.{Slot, Storage, store, slot_eq}
use call_node.Storage.Identity.{slot_eq_sound, slot_eq_refl}
use call_node.Storage.Layout.{location}
use call_node.Storage.Separation.{IsAccountSlot, hashed, hashed_injective, location-hashed}

-- The storage of all contracts, by address and slot word.
abbrev pub Backend : Type 0
Backend = ℕ → ℕ → ℕ

abbrev pub store_at : ℕ × ℕ → ℕ → Backend → Backend
store_at (a, s) v raw b t = if b == a && t == s then v else raw b t

module _ (keccak256 : List ℕ → ℕ) where
  -- What the hashed storage holds at each slot.
  abbrev pub view : Backend → Storage
  view raw p = raw (location keccak256 p).0 (location keccak256 p).1

  same_location :
      (p q : Slot)
      → ((location keccak256 q).0 == (location keccak256 p).0
          && (location keccak256 q).1 == (location keccak256 p).1)
        ≡ true
      → location keccak256 q ≡ location keccak256 p
  same_location p q h = λ i. (e.0 i, e.1 i)
    where
      e :
          ((location keccak256 q).0 ≡ (location keccak256 p).0)
          × ((location keccak256 q).1 ≡ (location keccak256 p).1)
      e = ground arith

  -- A write at a slot's location shows as the write of the map at each slot that lies elsewhere.
  view-store_at_apart :
      (p q : Slot) (v : ℕ) (raw : Backend)
      → (location keccak256 q ≡ location keccak256 p → q ≡ p)
      → view (store_at (location keccak256 p) v raw) q ≡ store p v (view raw) q
  view-store_at_apart p q v raw apart = elim (Bool-cases (slot_eq q p)) [
    | inl same ↦
        subst (λ r. view (store_at (location keccak256 p) v raw) r ≡ store p v (view raw) r)
          (sym (slot_eq_sound q p same)) (ground arith)
    | inr differ ↦
        elim (Bool-cases (
          (location keccak256 q).0 == (location keccak256 p).0
          && (location keccak256 q).1 == (location keccak256 p).1)) [
            | inl meets ↦ absurd (
                false≢true (
                  sym differ
                  ∙ ap (λ r. slot_eq r p) (apart (same_location p q meets))
                  ∙ slot_eq_refl p))
            | inr misses ↦ rw (differ, misses)
          ]
  ]

  -- A write at the location of an account's slot (a balance, an allowance, metadata or a binding of
  -- an asset, a record of a validator, compliance) shows at each such slot as the write of the map,
  -- where the hash tells the bytes of the two slots apart.
  pub view-store_at :
      (p q : Slot) (v : ℕ) (raw : Backend)
      → IsAccountSlot p
      → IsAccountSlot q
      → (keccak256 (hashed q).1 ≡ keccak256 (hashed p).1 → (hashed q).1 ≡ (hashed p).1)
      → view (store_at (location keccak256 p) v raw) q ≡ store p v (view raw) q
  view-store_at p q v raw h k apart = view-store_at_apart p q v raw (λ e.
      let same = sym (location-hashed keccak256 q k) ∙ e ∙ location-hashed keccak256 p h in
      hashed_injective q p k h (λ i. ((same i).0, apart (ap (λ (l : ℕ × ℕ). l.1) same) i)))
