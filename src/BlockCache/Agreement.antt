-- ===== src/BlockCache/Agreement.antt =====
-- The map and the order list of crates/consensus/src/block_cache.rs hold the same digests.
use call_node.Prelude.{
  ℕ, ◌+◌, ◌≤◌, ◌≡◌, refl, sym, ap, ◌∙◌, max, true, false, List, [], ◌∷◌, ◌++◌, some, arith, leb,
  ◌==◌, length, Dict, insert, remove, contains_key, nat_key, member, HasDistinctKeys,
  insert-HasDistinctKeys, length-insert, lookup-insert, length-append, All, Bool-cases, inl, inr,
  ==_iff, contains_key-insert,
}
use mathlib.Core.Bool.{false≢true}
use call_node.BlockCache.Ops.{
  BlockCache, new_cache, evict, insert_block, get, retain_other, remove_block, clear_cache,
}
use call_node.BlockCache.Digests.{
  IsAbsent, HasDistinctDigests, distinct-append, member_last, member_front, member_retained,
  length-retain_other_absent, length-retain_other, HasDistinctDigests-retain_other,
}
use call_node.BlockCache.Keys.{
  contains_key-remove_other, contains_key-remove_absent, remove-HasDistinctKeys, length-remove,
  length-remove_absent, contains_key-remove_back, removed_differs, contains_key-insert_itself,
  contains_key-insert_back,
}

module _ {B : Type 0} where
  -- The digests of the map and of the list are the same, each once, and few enough. A cache of
  -- size zero holds one block.
  pub record IsCache (c : BlockCache B) : Type 0 where
    pub distinct_keys : HasDistinctKeys c.blocks
    pub distinct_order : HasDistinctDigests c.order
    pub cached : All (λ d. contains_key d c.blocks ≡ true) c.order
    pub listed : (d : ℕ) → contains_key d c.blocks ≡ true → member d c.order ≡ true
    pub same_length : length c.blocks ≡ length c.order
    pub bounded : length c.blocks ≤ max 1 c.max_size

  still_cached :
      (x : ℕ) (xs : List ℕ) (d : Dict ℕ B)
      → IsAbsent x xs
      → All (λ y. contains_key y d ≡ true) xs
      → All (λ y. contains_key y (remove x d) ≡ true) xs
  still_cached x [] d a h = tt
  still_cached x (y ∷ ys) d a h =
      (contains_key-remove_other y x d a.0 h.0, still_cached x ys d a.1 h.1)

  listed_after :
      (x : ℕ) (xs : List ℕ) (blocks : Dict ℕ B)
      → HasDistinctKeys blocks
      → ((d : ℕ) → contains_key d blocks ≡ true → member d (x ∷ xs) ≡ true)
      → (d : ℕ) → contains_key d (remove x blocks) ≡ true
      → member d xs ≡ true
  listed_after x xs blocks h l d c =
      rw (removed_differs x d blocks h c) at (l d (contains_key-remove_back d x blocks c))

  evict-IsCache : (c : BlockCache B) → IsCache c → IsCache (evict c)
  evict-IsCache c v = go c.order v
    where
      go :
          (o : List ℕ) → IsCache (record c { order = o }) → IsCache (evict (record c { order = o }))
      go [] w = w
      go (x ∷ xs) w = record {
        distinct_keys = remove-HasDistinctKeys x c.blocks w.distinct_keys;
        distinct_order = w.distinct_order.1;
        cached = still_cached x xs c.blocks w.distinct_order.0 w.cached.1;
        listed = λ d. listed_after x xs c.blocks w.distinct_keys w.listed d;
        same_length = omega (arith, w.same_length, length-remove x c.blocks w.cached.0);
        bounded = omega (arith, w.bounded, length-remove x c.blocks w.cached.0);
      }

  evicted_room :
      (c : BlockCache B) → IsCache c → length (evict c).blocks + 1 ≤ max 1 (evict c).max_size
  evicted_room c v = go c.order v
    where
      go :
          (o : List ℕ)
          → IsCache (record c { order = o })
          → length (evict (record c { order = o })).blocks + 1
            ≤ max 1 (evict (record c { order = o })).max_size
      go [] w = omega (arith, w.same_length)
      go (x ∷ xs) w = omega (arith, w.bounded, length-remove x c.blocks w.cached.0)

  absent_order :
      (d : ℕ) (blocks : Dict ℕ B) (xs : List ℕ)
      → contains_key d blocks ≡ false
      → All (λ y. contains_key y blocks ≡ true) xs
      → All (λ y. (y == d) ≡ false) xs
  absent_order d blocks [] n h = tt
  absent_order d blocks (x ∷ xs) n h = (
    elim (Bool-cases (x == d)) [
      | inl same ↦
          absurd
            (false≢true (sym n ∙ ap (λ i. contains_key i blocks) (sym ((==_iff x d).0 same)) ∙ h.0))
      | inr differ ↦ differ
    ],
    absent_order d blocks xs n h.1,
  )

  cached-append :
      (k : ℕ) (b : B) (d : Dict ℕ B) (xs : List ℕ)
      → All (λ y. contains_key y d ≡ true) xs
      → All (λ y. contains_key y (insert k b d) ≡ true) (xs ++ k ∷ [])
  cached-append k b d [] h = (contains_key-insert_itself k b d, tt)
  cached-append k b d (x ∷ xs) h = (contains_key-insert x k b d h.0, cached-append k b d xs h.1)

  listed-append :
      (k : ℕ) (b : B) (blocks : Dict ℕ B) (xs : List ℕ)
      → ((d : ℕ) → contains_key d blocks ≡ true → member d xs ≡ true)
      → (d : ℕ) → contains_key d (insert k b blocks) ≡ true
      → member d (xs ++ k ∷ []) ≡ true
  listed-append k b blocks xs l d c = elim (Bool-cases (k == d)) [
    | inl same ↦ member_last d k xs same
    | inr differ ↦ member_front d k xs (l d (contains_key-insert_back d k b blocks differ c))
  ]

  -- With room for one more, the digest goes to the end of the order.
  appended-IsCache :
      (c : BlockCache B) (digest : ℕ) (block : B)
      → IsCache c
      → contains_key digest c.blocks ≡ false
      → length c.blocks + 1 ≤ max 1 c.max_size
      → IsCache (record c { order = c.order ++ digest ∷ []; blocks = insert digest block c.blocks })
  appended-IsCache c digest block v n r = record {
    distinct_keys = insert-HasDistinctKeys digest block c.blocks n v.distinct_keys;
    distinct_order =
        distinct-append digest c.order (absent_order digest c.blocks c.order n v.cached)
          v.distinct_order;
    cached = cached-append digest block c.blocks c.order v.cached;
    listed = λ d. listed-append digest block c.blocks c.order v.listed d;
    same_length = omega (
      arith,
      v.same_length,
      length-insert digest block c.blocks n,
      length-append c.order (digest ∷ []),
    );
    bounded = omega (arith, r, length-insert digest block c.blocks n);
  }

  evict_absent :
      (c : BlockCache B) (d : ℕ)
      → contains_key d c.blocks ≡ false
      → contains_key d (evict c).blocks ≡ false
  evict_absent c d n = go c.order
    where
      go : (o : List ℕ) → contains_key d (evict (record c { order = o })).blocks ≡ false
      go [] = n
      go (x ∷ xs) = contains_key-remove_absent d x c.blocks n

  insert_block-IsCache :
      (c : BlockCache B) (digest : ℕ) (block : B)
      → IsCache c
      → IsCache (insert_block c digest block)
  unfolding insert_block
  insert_block-IsCache c digest block v = elim (Bool-cases (contains_key digest c.blocks)) [
    | inl known ↦ rw known v
    | inr n ↦ elim (Bool-cases (leb c.max_size (length c.blocks))) [
      | inl full ↦
          rw (n, full)
            (appended-IsCache (evict c) digest block (evict-IsCache c v) (evict_absent c digest n)
              (evicted_room c v))
      | inr room ↦ rw (n, room) (appended-IsCache c digest block v n (ground arith))
    ]
  ]

  -- A block whose digest is new is found after its insertion.
  pub get-insert_block :
      (c : BlockCache B) (digest : ℕ) (block : B)
      → contains_key digest c.blocks ≡ false
      → get (insert_block c digest block) digest ≡ some block
  unfolding insert_block get
  get-insert_block c digest block n = rw n (lookup-insert digest block _)

  retained :
      (d : ℕ) (blocks : Dict ℕ B) (xs : List ℕ)
      → All (λ y. contains_key y blocks ≡ true) xs
      → All (λ y. contains_key y (remove d blocks) ≡ true) (retain_other d xs)
  retained d blocks [] h = tt
  retained d blocks (x ∷ xs) h = elim (Bool-cases (x == d)) [
    | inl same ↦ rw same (retained d blocks xs h.1)
    | inr differ ↦
        rw differ (contains_key-remove_other x d blocks differ h.0, retained d blocks xs h.1)
  ]

  -- A removal keeps the cache in agreement.
  remove_block-IsCache :
      (c : BlockCache B) (digest : ℕ) → IsCache c → IsCache (remove_block c digest).1
  unfolding remove_block
  remove_block-IsCache c digest v = record {
    distinct_keys = remove-HasDistinctKeys digest c.blocks v.distinct_keys;
    distinct_order = HasDistinctDigests-retain_other digest c.order v.distinct_order;
    cached = retained digest c.blocks c.order v.cached;
    listed = λ d h.
        member_retained digest d c.order (removed_differs digest d c.blocks v.distinct_keys h)
          (v.listed d (contains_key-remove_back d digest c.blocks h));
    same_length = same.0;
    bounded = omega (arith, v.bounded, same.1);
  }
    where
      same :
          (length (remove digest c.blocks) ≡ length (retain_other digest c.order))
          × (length (remove digest c.blocks) ≤ length c.blocks)
      same = elim (Bool-cases (contains_key digest c.blocks)) [
        | inl known ↦ (
          omega (
            arith,
            v.same_length,
            length-remove digest c.blocks known,
            length-retain_other digest c.order v.distinct_order (v.listed digest known),
          ),
          omega (arith, length-remove digest c.blocks known),
        )
        | inr unknown ↦ (
          omega (
            arith,
            v.same_length,
            length-remove_absent digest c.blocks unknown,
            length-retain_other_absent digest c.order
                (absent_order digest c.blocks c.order unknown v.cached),
          ),
          omega (arith, length-remove_absent digest c.blocks unknown),
        )
      ]

  -- The caches that calls lead to.
  pub data Caching : BlockCache B → Type 0 where
    start : (capacity : ℕ) → Caching (new_cache capacity)
    insertion :
        {c : BlockCache B} (digest : ℕ) (block : B)
        → Caching c
        → Caching (insert_block c digest block)
    removal : {c : BlockCache B} (digest : ℕ) → Caching c → Caching (remove_block c digest).1
    clearing : {c : BlockCache B} → Caching c → Caching (clear_cache c)

  empty-IsCache : (capacity : ℕ) → IsCache (record { blocks = []; order = []; max_size = capacity })
  empty-IsCache capacity = record {
    distinct_keys = tt;
    distinct_order = tt;
    cached = tt;
    listed = λ d h. h;
    same_length = refl;
    bounded = omega arith;
  }

  -- After any calls the map and the order hold the same digests, each once, and no more than the
  -- size, or one where the size is zero.
  pub Caching-IsCache : (c : BlockCache B) → Caching c → IsCache c
  unfolding new_cache clear_cache
  Caching-IsCache c (start capacity) = empty-IsCache capacity
  Caching-IsCache c (insertion digest block r) =
      insert_block-IsCache _ digest block (Caching-IsCache _ r)
  Caching-IsCache c (removal digest r) = remove_block-IsCache _ digest (Caching-IsCache _ r)
  Caching-IsCache c (clearing r) = empty-IsCache _
