-- ===== src/BlockCache/Tests.antt =====
-- A cache of two blocks, which are numbers here.
use call_node.Prelude.{ℕ, ◌≡◌, refl, none}
use call_node.BlockCache.Ops.{BlockCache, new_cache, insert_block, get}
use call_node.BlockCache.Agreement.{IsCache, Caching, Caching-IsCache}

abbrev two_cached : BlockCache ℕ
two_cached = insert_block (insert_block (new_cache 2) 71 1) 72 2

abbrev three_inserted : BlockCache ℕ
three_inserted = insert_block two_cached 73 3

Caching-IsCache_example : IsCache three_inserted
Caching-IsCache_example =
    Caching-IsCache three_inserted
      (Caching.insertion 73 3 (Caching.insertion 72 2 (Caching.insertion 71 1 (Caching.start 2))))

-- The block that came first has gone.
first_is_evicted : get three_inserted 71 ≡ none
unfolding insert_block new_cache get
first_is_evicted = refl
