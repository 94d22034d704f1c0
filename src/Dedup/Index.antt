-- ===== src/Dedup/Index.antt =====
-- The index of unique blocks and the life of a block that several files share: src/module_c/dedup.c
-- and dedup_core.c, with allocate_block and free_block of src/module_a/metadata_manager.c. A block is
-- known by its address; the result `none` of an operation is an access to a block that was freed.
-- SHA-256 and the compression libraries are parameters.
use smartbackup_fs.Base.{
  ℕ, ◌+◌, ◌-◌, ◌%◌, ◌^◌, Bool, true, false, ◌&&◌, Option, none, some, List, [], ◌∷◌, take, leb,
  length, ◌==◌, if◌then◌else◌,
}
use smartbackup_fs.HashTable.{Table, hash_table_get, hash_table_set, hash_table_remove}
use smartbackup_fs.Block.{DataBlock, Decompressor, plain_bytes}
use smartbackup_fs.Block.Heap.{Heap, alloc, write, release}
use smartbackup_fs.Block.Io.{allocate_block, bytes_of}
use smartbackup_fs.Wal.Header.{from_bytes}
use smartbackup_fs.Stats.{
  StorageStats, ClassStats, smb_update_unique_block, smb_on_unique_block_removed,
}
use smartbackup_fs.Cache.{MultiCache, cache_invalidate_block}
use smartbackup_fs.Dedup.Config.{DedupConfig}

-- What the libraries compute: the hash; what an algorithm makes of an input within a capacity, at a
-- level; the capacity that it asks for; the plain bytes again; whether gzip is there. And the file type that
-- the memory of a new block, by its id, holds, since nothing sets it.
pub record Libraries : Type 0 where
  pub sha256 : List ℕ → List ℕ
  pub compress : ℕ → List ℕ → ℕ → ℕ → Option (List ℕ)
  pub bound : ℕ → ℕ → ℕ
  pub decompress : Decompressor
  pub have_zlib : Bool
  pub junk_type : ℕ → ℕ

-- The state that the module shares with the others: the index and the totals of
-- `global_dedup_state_t`, the two configurations, the counters, the number of blocks handed out and in
-- use, and the cache with the memory.
pub record Blocks : Type 0 where
  pub block_hash_index : Table ℕ
  pub total_unique_blocks : ℕ
  pub saved_space : ℕ
  pub g_config : DedupConfig
  pub dedup_config : DedupConfig
  pub storage : StorageStats
  pub classes : List ClassStats
  pub total_blocks : ℕ
  pub used_blocks : ℕ
  pub cache : MultiCache

abbrev pub heap_of : Blocks → Heap
heap_of s = s.cache.heap

abbrev pub with_heap : Heap → Blocks → Blocks
with_heap h s = record s { cache = record s.cache { heap = h } }

abbrev pub write_to : ℕ → DataBlock → Blocks → Blocks
write_to addr b s = with_heap (write addr b (heap_of s)) s

-- a read of the block at an address, and what follows
unfoldable pub with_block {ℓ} : {A : Type ℓ} → Option DataBlock → (DataBlock → Option A) → Option A
with_block none f = none
with_block (some b) f = f b

abbrev pub hash_key_from_hash : List ℕ → ℕ
hash_key_from_hash hash = (from_bytes 8 hash).0

-- `memcmp` gives 0
unfoldable pub same_bytes : List ℕ → List ℕ → Bool
same_bytes [] [] = true
same_bytes (x ∷ xs) (y ∷ ys) = (x == y) && same_bytes xs ys
same_bytes _ _ = false

abbrev pub dedup_core_inc_ref : DataBlock → DataBlock
dedup_core_inc_ref b = record b { ref_count = (b.ref_count + 1) % 2 ^ 32 }

abbrev pub dedup_core_dec_ref : DataBlock → DataBlock
dedup_core_dec_ref b = record b { ref_count = b.ref_count - 1 }

-- whether a buffer, if there is one, has as many bytes as the size says
abbrev pub fits_buffer : ℕ → Option (List ℕ) → Bool
fits_buffer size none = true
fits_buffer size (some bytes) = leb size (length bytes)

-- that hashing the block does not read past its buffer
abbrev pub is_hashable : DataBlock → Bool
is_hashable b = fits_buffer b.size b.buffer

-- `block_compute_hash`, which hashes as many bytes as the block's size says; its callers see to it that the
-- buffer has them
unfoldable pub block_compute_hash : Libraries → DataBlock → DataBlock
block_compute_hash lib b =
    if b.size == 0 then b else record b { hash = lib.sha256 (take b.size (bytes_of b)) }

-- the private copy of a block
abbrev pub copy_of : Libraries → DataBlock → List ℕ → ℕ → DataBlock
copy_of lib b plain id =
    block_compute_hash lib
      (record (allocate_block (lib.junk_type id) id plain) { file_type = b.file_type })

-- the slot holds the copy, once the reference to the block is dropped
abbrev pub move_slot : ℕ → Option Blocks → Option (ℕ × Blocks)
move_slot new none = none
move_slot new (some s) = some (new, s)

module _ (now : ℕ) where
  abbrev pub dedup_core_find : List ℕ → Blocks → Option ℕ × Blocks
  dedup_core_find hash s =
      let (found, index) = hash_table_get s.block_hash_index (hash_key_from_hash hash) now in
      (found, record s { block_hash_index = index })

  -- A candidate whose hash is the same gets a reference more.
  abbrev pub check_candidate : List ℕ → Option ℕ → Blocks → Option (Option ℕ × Blocks)
  check_candidate hash none s = some (none, s)
  check_candidate hash (some addr) s = with_block ((heap_of s).cells addr) λ b.
      if same_bytes b.hash hash
      then some (some addr, write_to addr (dedup_core_inc_ref b) s)
      else some (none, s)

  unfoldable pub dedup_find_duplicate : List ℕ → Blocks → Option (Option ℕ × Blocks)
  dedup_find_duplicate hash s =
      let (found, s') = dedup_core_find hash s in
      if s.g_config.enable_deduplication then check_candidate hash found s' else some (none, s)

  abbrev index_new : List ℕ → ℕ → Option ℕ → Blocks → Blocks
  index_new hash addr (some _) s = s
  index_new hash addr none s = record s {
    block_hash_index =
        (hash_table_set s.block_hash_index (hash_key_from_hash hash) (some addr) now true).1;
    total_unique_blocks = s.total_unique_blocks + 1;
    storage = smb_update_unique_block s.storage;
  }

  unfoldable pub dedup_index_block : List ℕ → ℕ → Blocks → Blocks
  dedup_index_block hash addr s =
      let (found, s') = dedup_core_find hash s in
      if s.g_config.enable_deduplication then index_new hash addr found s' else s

  abbrev drop_own : List ℕ → ℕ → Option ℕ → Blocks → Blocks
  drop_own hash addr none s = s
  drop_own hash addr (some cand) s =
      if cand == addr
      then record s {
        block_hash_index = (hash_table_remove s.block_hash_index (hash_key_from_hash hash)).1;
        total_unique_blocks = s.total_unique_blocks - 1;
        storage = smb_on_unique_block_removed s.storage;
      }
      else s

  unfoldable pub dedup_remove_block : List ℕ → ℕ → Blocks → Blocks
  dedup_remove_block hash addr s =
      let (found, s') = dedup_core_find hash s in drop_own hash addr found s'

  -- `free_block`; the hash is read after the cache let go of the block
  unfoldable pub free_block : ℕ → Blocks → Option Blocks
  free_block addr s = with_block ((heap_of s).cells addr) λ b.
      let s1 = record s { cache = cache_invalidate_block b.block_id now s.cache } in
      with_block ((heap_of s1).cells addr) λ b1.
        let s2 = dedup_remove_block b1.hash addr s1 in
        some
          (record (with_heap (release addr (heap_of s2)) s2) { used_blocks = s2.used_blocks - 1 })

  -- The last reference frees the block.
  unfoldable pub dedup_release_block : ℕ → Blocks → Option Blocks
  dedup_release_block addr s = with_block ((heap_of s).cells addr) λ b.
      let s' = write_to addr (dedup_core_dec_ref b) s in
      if leb b.ref_count 1 then free_block addr s' else some s'

  abbrev pub copy_shared :
      Libraries → ℕ → DataBlock → Option (List ℕ) → Blocks → Option (ℕ × Blocks)
  copy_shared lib addr b none s = none
  copy_shared lib addr b (some plain) s =
      let (new, h) = alloc (copy_of lib b plain s.total_blocks) (heap_of s) in
      let s1 = record (with_heap h s) {
        total_blocks = s.total_blocks + 1;
        used_blocks = s.used_blocks + 1;
      } in
      move_slot new (dedup_release_block addr s1)

  -- The address that the slot holds after the call: a shared block is copied.
  unfoldable pub copy_on_write : Libraries → ℕ → Blocks → Option (ℕ × Blocks)
  copy_on_write lib addr s = with_block ((heap_of s).cells addr) λ b.
      if leb b.ref_count 1
      then some (addr, s)
      else copy_shared lib addr b (plain_bytes lib.decompress (some b)) s
