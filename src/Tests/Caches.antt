-- ===== src/Tests/Caches.antt =====
-- Inputs for the cache (src/module_c/cache.c): a first level of three bytes, a second level of four
-- slots and a third level of four bytes.
use smartbackup_fs.Base.{
  ℕ, sym, ap, Option, inr, ◌+◌, ◌<◌, ◌≤◌, ◌≡◌, ◌≢◌, refl, [], ◌∷◌, none, some, true, false, length,
  replicate, ◌⊎◌, arith,
}
use mathlib.Core.Path.{subst}
use smartbackup_fs.HashTable.{hash_table_create}
use smartbackup_fs.HashTable.Buckets.{IsValid, view, hash_table_create-Models}
use smartbackup_fs.Block.{DataBlock, Decompressor, is_compressed}
use smartbackup_fs.Block.Heap.{Heap, write}
use smartbackup_fs.Block.Io.{bytes_of}
use smartbackup_fs.Stats.{no_cache_stats}
use smartbackup_fs.Cache.Level1.{L1Cache, l1_put}
use smartbackup_fs.Cache.Level1.Laws.{total_size, has_entry, Distinct, IsTracked}
use smartbackup_fs.Cache.Level1.Put.{HasRoom, l1_put-IsTracked}
use smartbackup_fs.Cache.Level2.{L2Cache, l2_alloc_block}
use smartbackup_fs.Cache.Level3.{
  L3Entry, L3Cache, evict_rounds, l3_evict_if_needed, loaded, store_size, l3_cache_get,
  l3_cache_put,
}
use smartbackup_fs.Cache.Level3.Eviction.{IsIndexed, Forgets}
use smartbackup_fs.Cache.Level3.Laws.{put_block, l3_evict_if_needed-ends, l3_cache_get-l3_cache_put}
use smartbackup_fs.Cache.{
  MultiCache, cache_put_block, cache_get_block, cache_invalidate_block,
  cache_invalidate_block_level,
}
use smartbackup_fs.Cache.Laws.{
  IsSound, FindsNothing, IsMissing, cache_get_block-cache_invalidate_block,
}
use smartbackup_fs.Cache.Slots.{IsPuttable}
use smartbackup_fs.Cache.Stores.{cache_get_block-stored}

abbrev no_codec : Decompressor
no_codec = λ algorithm input capacity. none

abbrev empty_l1 : L1Cache
empty_l1 = record { table = hash_table_create 4; max_bytes = 3; current_bytes = 0; entries = [] }

empty_l1-IsTracked : IsTracked empty_l1
unfolding total_size has_entry Distinct
empty_l1-IsTracked =
    let m = hash_table_create-Models 4 (omega arith) in
    record { valid = m.valid; distinct = tt; counted = refl; agree = λ q. rw (m.reads q) refl }

abbrev one_l1 : L1Cache
one_l1 = l1_put 8 2 90 1000 empty_l1

one_l1-IsTracked : IsTracked one_l1
one_l1-IsTracked = (l1_put-IsTracked 8 2 90 1000 empty_l1 empty_l1-IsTracked).0

l1_put-IsTracked_example :
    let c = l1_put 5 2 91 1001 one_l1 in
    IsTracked c
    × (view c.table 5 ≡ some 91)
    × ((q : ℕ) → q ≢ 5 → (view c.table q ≡ none) ⊎ (view c.table q ≡ view one_l1.table q))
    × HasRoom 5 2 one_l1 c
l1_put-IsTracked_example = l1_put-IsTracked 5 2 91 1001 one_l1 one_l1-IsTracked

abbrev block : DataBlock
block = record {
  block_id = 5;
  buffer = some (7 ∷ 8 ∷ 9 ∷ []);
  size = 3;
  compressed_size = 0;
  file_type = 0;
  hash = replicate 32 0;
  compression = 0;
  ref_count = 1;
  file_ino = 1;
  offset = 0;
  checksum = 0;
}

abbrev empty_l3 : L3Cache
empty_l3 = record {
  capacity_bytes = 4;
  slot_size = 2;
  max_entries = 2;
  expire_seconds = 3600;
  current_bytes = 0;
  index = hash_table_create 5;
  files = λ _. none;
}

empty_l3-IsIndexed : IsIndexed empty_l3.index
empty_l3-IsIndexed =
    let m = hash_table_create-Models {V = L3Entry} 5 (omega arith) in
    record { valid = m.valid; keyed = λ q e h. absurd (ground (arith, m.reads q)) }

abbrev filled : Option L3Cache → L3Cache
filled none = empty_l3
filled (some c) = c

abbrev one_l3 : L3Cache
one_l3 = filled (l3_cache_put block 1000 true empty_l3)

one_l3-IsIndexed : IsIndexed one_l3.index
one_l3-IsIndexed =
    let (c, (ends, f)) =
      put_block block 1000 empty_l3 empty_l3-IsIndexed (omega arith) (omega arith) in
    subst (λ l. IsIndexed l.index) (sym (ap filled ends)) f.indexed

l3_evict_if_needed-ends_example :
    let c = l3_evict_if_needed 3 1001 one_l3 in
    (evict_rounds (one_l3.index.count + 1) 3 1001 one_l3 ≡ some c)
    × (c.current_bytes ≡ one_l3.current_bytes)
    × (c.files ≡ one_l3.files)
    × Forgets one_l3.index c.index
    × ((c.index.count ≡ 0) ⊎ (c.index.count < one_l3.max_entries))
    × (one_l3.capacity_bytes < one_l3.current_bytes + 3 → c.index.count ≡ 0)
l3_evict_if_needed-ends_example = l3_evict_if_needed-ends 3 1001 one_l3 one_l3-IsIndexed

l3_cache_get-l3_cache_put_example :
    ((store_size block empty_l3 ≤ length (bytes_of block))
      × ((c' : L3Cache) × ((l3_cache_put block 1000 true empty_l3 ≡ some c')
            × ((l3_cache_get 5 1500 c').0
                ≡ loaded (record (l2_alloc_block 5 2) { buffer = some (7 ∷ 8 ∷ []); size = 2 })))))
    ⊎ ((length (bytes_of block) < store_size block empty_l3)
        × (l3_cache_put block 1000 true empty_l3 ≡ none))
l3_cache_get-l3_cache_put_example =
    l3_cache_get-l3_cache_put block 1000 1500 empty_l3 empty_l3-IsIndexed (omega arith)
      (omega arith)

abbrev empty_l2 : L2Cache
empty_l2 = record {
  enabled = true;
  capacity_bytes = 8;
  slot_size = 2;
  slots = 4;
  slot_ids = replicate 4 0;
  slot_blocks = replicate 4 none;
  dirty_flags = replicate 4 false;
  index = hash_table_create 8;
}

-- the block at the address 91
abbrev memory : Heap
memory = write 91 block (record { cells = λ _. none; next = 100 })

abbrev start : MultiCache
start = record {
  l1 = one_l1;
  l2 = empty_l2;
  l3 = some one_l3;
  stats = no_cache_stats;
  heap = memory;
}

empty_l2-IsValid : IsValid empty_l2.index
empty_l2-IsValid = (hash_table_create-Models 8 (omega arith)).valid

start-IsSound : IsSound start
start-IsSound = record {
  tracked = one_l1-IsTracked;
  indexed = empty_l2-IsValid;
  filed = one_l3-IsIndexed.valid;
}

cache_get_block-cache_invalidate_block_example :
    IsMissing 8 (cache_invalidate_block 8 1001 start)
    × FindsNothing (cache_get_block 1002 true no_codec 8 (cache_invalidate_block 8 1001 start))
cache_get_block-cache_invalidate_block_example =
    cache_get_block-cache_invalidate_block no_codec 8 1001 1002 true start start-IsSound

block-IsPuttable : IsPuttable 91 block empty_l2 memory
block-IsPuttable = record {
  on = refl;
  slot = omega arith;
  inside = omega arith;
  valid = empty_l2-IsValid;
  ids = refl;
  blocks = refl;
  live = refl;
  old = omega arith;
  apart = λ e. absurd (cc);
  bare = λ _. refl;
}

cache_get_block-stored_example :
    (s : MultiCache) × ((cache_put_block 1001 true no_codec 91 start ≡ some s)
      × ((view s.l1.table 5 ≡ some 91)
          × (cache_get_block 1002 true no_codec 5 (cache_invalidate_block_level 5 1 1002 s)
              ≡ none)))
unfolding is_compressed
cache_get_block-stored_example =
    cache_get_block-stored no_codec 1001 1002 true true 91 block (7 ∷ 8 ∷ 9 ∷ []) start
      one_l1-IsTracked block-IsPuttable refl (inr (omega arith))
