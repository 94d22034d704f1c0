-- ===== src/Cache.antt =====
-- The cache of blocks in three levels, src/module_c/cache.c, over the structures of
-- include/module_c/cache.h. A block is known by its address; the result `none` of an operation is an
-- access to a block that was freed. The clock `now` stands still during a call, and `opened` says
-- whether the file of the third level that a call writes can be opened. The thread that flushes is
-- given by its round; its locks, its waiting and the shutdown of the thread are left out.
pub mod Level1
pub mod Level2
pub mod Level3
pub mod Laws
pub mod Faults
pub mod Slots
pub mod Stores
use smartbackup_fs.Base.{
  ℕ, ◌*◌, ◌/◌, ◌%◌, Bool, true, false, Option, none, some, List, [], ◌∷◌, get_or, leb, ◌==◌, ◌&&◌,
  ◌||◌, not, if◌then◌else◌, Status, success, failed,
}
use smartbackup_fs.HashTable.{hash_table_get, hash_table_size}
use smartbackup_fs.Block.{DataBlock, Decompressor}
use smartbackup_fs.Block.Heap.{Heap, empty_heap, alloc}
use smartbackup_fs.Stats.{
  CacheStats, no_cache_stats, smb_cache_update_hits, smb_cache_set_usage, smb_cache_set_l2_dirty,
}
use smartbackup_fs.Cache.Level1.{L1Cache, l1_block_size, l1_put, l1_invalidate, l1_init, l1_clear}
use smartbackup_fs.Cache.Level2.{
  L2Cache, l2_copy_into_slot, l2_displace, l2_claim, l2_publish, l2_find, l2_invalidate,
  l2_dirty_count, flush_slots, no_l2, l2_init,
}
use smartbackup_fs.Cache.Level3.{
  L3Cache, l3_remove_entry, L3Lookup, absent, expired, unreadable, loaded, l3_cache_get,
  l3_cache_put, l3_trim_expired, l3_init, l3_shutdown,
}

-- `multi_level_cache_t`, with the counters and the memory; `l3` is `none` while its index is null
pub record MultiCache : Type 0 where
  pub l1 : L1Cache
  pub l2 : L2Cache
  pub l3 : Option L3Cache
  pub stats : CacheStats
  pub heap : Heap

abbrev pub on_l3 : (L3Cache → L3Cache) → Option L3Cache → Option L3Cache
on_l3 f none = none
on_l3 f (some c) = some (f c)

abbrev pub l3_bytes : Option L3Cache → ℕ
l3_bytes none = 0
l3_bytes (some c) = c.current_bytes

-- whether `l3_trim_expired` gets past its checks
abbrev pub trims : Option L3Cache → Bool
trims none = false
trims (some c) = not (c.expire_seconds == 0) && not (hash_table_size c.index == 0)

abbrev pub cache_stats_set_dirty : MultiCache → MultiCache
cache_stats_set_dirty s = record s {
  stats = smb_cache_set_l2_dirty (l2_dirty_count s.l2.dirty_flags) s.l2.slots s.stats;
}

abbrev pub cache_stats_set_usage : MultiCache → MultiCache
cache_stats_set_usage s = record s {
  stats =
      smb_cache_set_usage s.l1.current_bytes (s.l2.slots * s.l2.slot_size) (l3_bytes s.l3) s.stats;
}

abbrev pub count_hit : ℕ → Bool → MultiCache → MultiCache
count_hit level hit s = record s { stats = smb_cache_update_hits level hit s.stats }

module _ (now : ℕ) (opened : Bool) where
  -- what `l3_cache_put` has made of the third level; it updates the usage if it writes the file
  abbrev pub take_l3 : Bool → Option L3Cache → MultiCache → Option MultiCache
  take_l3 writes none s = none
  take_l3 writes (some c) s =
      let s' = record s { l3 = some c } in some (if writes then cache_stats_set_usage s' else s')

  -- the call of `l3_cache_put` on a block
  abbrev pub put_l3 : Option DataBlock → Option L3Cache → MultiCache → Option MultiCache
  put_l3 b none s = some s
  put_l3 none (some c) s = none
  put_l3 (some b) (some c) s =
      take_l3 (opened && not (c.capacity_bytes == 0)) (l3_cache_put b now opened c) s

  -- after the copy into the slot
  abbrev pub finish_put : ℕ → ℕ → ℕ → L2Cache × Heap → MultiCache → Option MultiCache
  finish_put addr id slot made s = put_l3 (made.1.cells addr) s.l3 (
      cache_stats_set_usage
        (cache_stats_set_dirty (record s { l2 = l2_publish slot id now made.0; heap = made.1 })))

  -- the block is read again once the slot's old block is freed
  abbrev pub fill_slot : Decompressor → ℕ → ℕ → L2Cache → Heap → MultiCache → Option MultiCache
  fill_slot codec addr slot l2 heap s = elim (heap.cells addr) [
    | none ↦ none
    | some b ↦ elim (l2_copy_into_slot codec slot b (l2_claim slot b.block_id l2) heap) [
      | none ↦ none
      | some made ↦ finish_put addr b.block_id slot made s
    ]
  ]

  -- `cache_put_block` below the first level, whether or not the second level is on
  abbrev pub put_lower : Decompressor → ℕ → ℕ → Bool → MultiCache → Option MultiCache
  put_lower codec addr id false s = some s
  put_lower codec addr id true s =
      let slot = id % s.l2.slots in
      let old_id = get_or s.l2.slot_ids slot 0 in
      let (l2, heap) = l2_displace slot s.l2 s.heap in
      fill_slot codec addr slot l2 heap
        (record s { l3 = if old_id == 0 then s.l3 else on_l3 (l3_remove_entry old_id now) s.l3 })

  unfoldable pub cache_put_block : Decompressor → ℕ → MultiCache → Option MultiCache
  cache_put_block codec addr s = elim (s.heap.cells addr) [
    | none ↦ none
    | some b ↦
        put_lower codec addr b.block_id (s.l2.enabled && not (s.l2.slots == 0))
          (record s { l1 = l1_put b.block_id (l1_block_size b) addr now s.l1 })
  ]

  -- a block found below the first level goes to all levels
  abbrev pub promote : Decompressor → ℕ → MultiCache → Option (Option ℕ × MultiCache)
  promote codec addr s = elim (cache_put_block codec addr s) [
    | none ↦ none
    | some s' ↦ some (some addr, s')
  ]

  abbrev pub take_loaded :
      Decompressor → L3Lookup → L3Cache → MultiCache → Option (Option ℕ × MultiCache)
  take_loaded codec absent c s = some (none, count_hit 3 false (record s { l3 = some c }))
  take_loaded codec expired c s = some (none, record s { l3 = some c })
  take_loaded codec unreadable c s = some (none, record s { l3 = some c })
  take_loaded codec (loaded b) c s =
      let (addr, heap) = alloc b s.heap in
      promote codec addr (count_hit 3 true (record s { l3 = some c; heap = heap }))

  -- the lookup in the third level
  abbrev pub get_l3 :
      Decompressor → ℕ → Option L3Cache → MultiCache → Option (Option ℕ × MultiCache)
  get_l3 codec id none s = some (none, s)
  get_l3 codec id (some c) s = let (r, c') = l3_cache_get id now c in take_loaded codec r c' s

  -- after the lookup in the second level
  abbrev pub take_hit : Decompressor → ℕ → Option ℕ → MultiCache → Option (Option ℕ × MultiCache)
  take_hit codec id none s = let s' = count_hit 2 false s in get_l3 codec id s'.l3 s'
  take_hit codec id (some addr) s = promote codec addr (count_hit 2 true s)

  -- `cache_get_block` after a miss in the first level, whether or not the second level is on
  abbrev pub get_lower : Decompressor → ℕ → Bool → MultiCache → Option (Option ℕ × MultiCache)
  get_lower codec id false s = some (none, s)
  get_lower codec id true s =
      let (hit, l2) = l2_find id now s.l2 in take_hit codec id hit (record s { l2 = l2 })

  -- The address of the block, if it is cached.
  unfoldable pub cache_get_block : Decompressor → ℕ → MultiCache → Option (Option ℕ × MultiCache)
  cache_get_block codec id s =
      let (found, table) = hash_table_get s.l1.table id now in
      let s' = record s { l1 = record s.l1 { table = table } } in
      elim found [
        | some addr ↦ some (some addr, count_hit 1 true s')
        | none ↦ get_lower codec id s.l2.enabled (count_hit 1 false s')
      ]

  unfoldable pub cache_prefetch : Decompressor → List ℕ → MultiCache → Option MultiCache
  cache_prefetch codec [] s = some s
  cache_prefetch codec (id ∷ ids) s = elim (cache_get_block codec id s) [
    | none ↦ none
    | some (_, s') ↦ cache_prefetch codec ids s'
  ]

-- `cache_invalidate_block` below the first level, whether or not the second level is on
abbrev pub invalidate_lower : ℕ → ℕ → Bool → MultiCache → MultiCache
invalidate_lower id now false s = s
invalidate_lower id now true s =
    let (l2, heap) = l2_invalidate id now s.l2 s.heap in
    cache_stats_set_usage (
      cache_stats_set_dirty
        (record s { l2 = l2; heap = heap; l3 = on_l3 (l3_remove_entry id now) s.l3 }))

unfoldable pub cache_invalidate_block : ℕ → ℕ → MultiCache → MultiCache
cache_invalidate_block id now s =
    invalidate_lower id now s.l2.enabled (record s { l1 = l1_invalidate id s.l1 })

-- whether a bit of the mask is set
abbrev pub has_bit : ℕ → ℕ → Bool
has_bit mask bit = mask / bit % 2 == 1

unfoldable pub cache_invalidate_block_level : ℕ → ℕ → ℕ → MultiCache → MultiCache
cache_invalidate_block_level id mask now s =
    let s1 = if has_bit mask 1 then record s { l1 = l1_invalidate id s.l1 } else s in
    let s2 = if has_bit mask 2 then cache_invalidate_block id now s1 else s1 in
    let s3 =
      if has_bit mask 4 then record s2 { l3 = on_l3 (l3_remove_entry id now) s2.l3 } else s2 in
    cache_stats_set_usage (cache_stats_set_dirty s3)

-- `synced` says of which slots `msync` succeeds.
unfoldable pub cache_flush_l2_dirty : (ℕ → Bool) → MultiCache → MultiCache
cache_flush_l2_dirty synced s =
    if s.l2.enabled
    then cache_stats_set_dirty (record s {
      l2 = record s.l2 { dirty_flags = flush_slots synced 0 s.l2.slot_ids s.l2.dirty_flags };
    })
    else s

unfoldable pub multi_level_cache_manage : (ℕ → Bool) → ℕ → MultiCache → MultiCache
multi_level_cache_manage synced now s =
    let s' = cache_stats_set_usage (cache_flush_l2_dirty synced s) in
    cache_stats_set_usage (record s' { l3 = on_l3 (l3_trim_expired now) s'.l3 })

-- a round of `cache_flush_thread_fn` up to its wait; it flushes again while a fifth of the slots is dirty
unfoldable pub flush_round : (ℕ → Bool) → (ℕ → Bool) → ℕ → MultiCache → MultiCache
flush_round synced synced_again now s =
    let s' = cache_stats_set_dirty (cache_flush_l2_dirty synced s) in
    let trimmed = record s' { l3 = on_l3 (l3_trim_expired now) s'.l3 } in
    let s2 = if trims s'.l3 then cache_stats_set_usage trimmed else trimmed in
    if not (s.l2.slots == 0) && leb s.l2.slots (5 * l2_dirty_count s2.l2.dirty_flags)
    then cache_flush_l2_dirty synced_again s2
    else s2

abbrev pub empty_cache : ℕ → MultiCache
empty_cache l1_bytes = record {
  l1 = l1_init l1_bytes;
  l2 = no_l2;
  l3 = none;
  stats = no_cache_stats;
  heap = empty_heap;
}

-- `mapped` says whether the file of the second level could be mapped, `is_dir` whether the directory of
-- the third is there, and `files` what it holds.
unfoldable pub cache_system_init :
    ℕ → Bool → Bool → (ℕ → Option (List ℕ)) → ℕ → ℕ → ℕ → Status × MultiCache
cache_system_init block_size mapped is_dir files l1_bytes l2_bytes l3_bytes =
    let (s2, l2) = l2_init block_size l2_bytes mapped in
    let (s3, l3) = l3_init block_size l3_bytes is_dir files in
    let c = record (empty_cache l1_bytes) { l2 = l2 } in
    elim s2 [
      | success ↦ elim s3 [
        | success ↦ (success, cache_stats_set_usage (record c { l3 = l3 }))
        | _ ↦ (failed, record c { l3 = l3 })
      ]
      | _ ↦ (failed, c)
    ]
