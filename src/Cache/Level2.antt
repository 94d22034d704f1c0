-- ===== src/Cache/Level2.antt =====
-- The second level of the cache, src/module_c/cache.c (l2_*): a block's slot is its id modulo the
-- number of slots, and holds a plain copy of it. The backing file, to which the bytes of a slot are
-- only ever written, is left out, and so are the bytes of a copy's buffer past its size.
use smartbackup_fs.Base.{
  ℕ, ◌+◌, ◌*◌, ◌/◌, Bool, true, false, Option, none, some, List, [], ◌∷◌, get_or, set, take, length,
  replicate, ltb, ◌==◌, ◌&&◌, not, if◌then◌else◌, Status, success, failed,
}
use smartbackup_fs.HashTable.{
  Table, hash_table_create, hash_table_get, hash_table_set, hash_table_remove,
}
use smartbackup_fs.Directory.{default_block_size}
use smartbackup_fs.Block.{DataBlock, Decompressor, is_compressed}
use smartbackup_fs.Block.Heap.{Heap, write, alloc, release}
use smartbackup_fs.Block.Io.{source_bytes, bytes_of, put_bytes}

-- `l2_cache_t`; `index` holds slot numbers as pointers
pub record L2Cache : Type 0 where
  pub enabled : Bool
  pub capacity_bytes : ℕ
  pub slot_size : ℕ
  pub slots : ℕ
  pub slot_ids : List ℕ
  pub slot_blocks : List (Option ℕ)
  pub dirty_flags : List Bool
  pub index : Table ℕ

-- Slot 0 as a pointer is null.
abbrev pub slot_ptr : ℕ → Option ℕ
slot_ptr slot = if slot == 0 then none else some slot

-- the block that is allocated, its bytes undefined
abbrev pub l2_alloc_block : ℕ → ℕ → DataBlock
l2_alloc_block id size = record {
  block_id = id;
  buffer = some [];
  size = size;
  compressed_size = 0;
  file_type = 0;
  hash = replicate 32 0;
  compression = 0;
  ref_count = 1;
  file_ino = 0;
  offset = 0;
  checksum = 0;
}

-- the block after the first `n` plain bytes are copied into it
abbrev pub overwrite : DataBlock → List ℕ → ℕ → DataBlock
overwrite dst src n = record dst {
  buffer = some (put_bytes (bytes_of dst) 0 (take n src));
  size = n;
  compressed_size = 0;
  compression = 0;
}

abbrev pub copy_size : ℕ → ℕ → ℕ
copy_size src_size slot_size = if ltb src_size slot_size then src_size else slot_size

-- the copy into the slot's block, which is allocated if there is none
abbrev pub copy_bytes : ℕ → ℕ → List ℕ → ℕ → L2Cache → Heap → Option (L2Cache × Heap)
copy_bytes slot id src n c h = elim (get_or c.slot_blocks slot none) [
  | none ↦
      let (a, h') = alloc (overwrite (l2_alloc_block id c.slot_size) src n) h in
      some (record c { slot_blocks = set c.slot_blocks slot (some a) }, h')
  | some a ↦ elim (h.cells a) [ none ↦ none | some dst ↦ some (c, write a (overwrite dst src n) h) ]
]

-- The result, which the caller drops, is left out. `none` is an access to a freed block.
unfoldable pub l2_copy_into_slot :
    Decompressor → ℕ → DataBlock → L2Cache → Heap → Option (L2Cache × Heap)
l2_copy_into_slot codec slot b c h = elim (source_bytes codec b) [
  | none ↦ some (c, h)
  | some src ↦
      copy_bytes slot b.block_id src
        (copy_size (if is_compressed b then length src else b.size) c.slot_size) c h
]

abbrev pub free_slot : ℕ → L2Cache → Heap → L2Cache × Heap
free_slot slot c h = elim (get_or c.slot_blocks slot none) [
  | none ↦ (c, h)
  | some a ↦ (record c { slot_blocks = set c.slot_blocks slot none }, release a h)
]

-- `if (old_id)` of `cache_put_block`, for the second level
abbrev pub l2_displace : ℕ → L2Cache → Heap → L2Cache × Heap
l2_displace slot c h =
    let old_id = get_or c.slot_ids slot 0 in
    if old_id == 0
    then (c, h)
    else free_slot slot (record c { index = (hash_table_remove c.index old_id).1 }) h

-- the slot marked as that of the id
abbrev pub l2_claim : ℕ → ℕ → L2Cache → L2Cache
l2_claim slot id c = record c { slot_ids = set c.slot_ids slot id }

-- the slot marked dirty, and indexed
abbrev pub l2_publish : ℕ → ℕ → ℕ → L2Cache → L2Cache
l2_publish slot id now c = record c {
  dirty_flags = set c.dirty_flags slot true;
  index = (hash_table_set c.index id (slot_ptr slot) now true).1;
}

-- the lookup of `cache_get_block`
unfoldable pub l2_find : ℕ → ℕ → L2Cache → Option ℕ × L2Cache
l2_find id now c =
    let (found, index) = hash_table_get c.index id now in
    (
      elim found [
        | none ↦ none
        | some slot ↦
            if ltb slot c.slots && (get_or c.slot_ids slot 0 == id)
            then get_or c.slot_blocks slot none
            else none
      ],
      record c { index = index },
    )

-- `cache_invalidate_block` under the lock of the second level
unfoldable pub l2_invalidate : ℕ → ℕ → L2Cache → Heap → L2Cache × Heap
l2_invalidate id now c h =
    let (found, index) = hash_table_get c.index id now in
    let c' = record c { index = index } in
    elim found [
      | none ↦ (c', h)
      | some slot ↦
          let (c2, h2) =
            free_slot slot
              (record c' {
                index = (hash_table_remove index id).1;
                slot_ids = set c.slot_ids slot 0;
              })
              h in
          (record c2 { dirty_flags = set c2.dirty_flags slot false }, h2)
    ]

unfoldable pub l2_dirty_count : List Bool → ℕ
l2_dirty_count [] = 0
l2_dirty_count (d ∷ ds) = (if d then 1 else 0) + l2_dirty_count ds

-- the loop of `cache_flush_l2_dirty`; `synced` says of which slots `msync` succeeds
unfoldable pub flush_slots : (ℕ → Bool) → ℕ → List ℕ → List Bool → List Bool
flush_slots synced i [] ds = ds
flush_slots synced i (id ∷ ids) [] = []
flush_slots synced i (id ∷ ids) (d ∷ ds) =
    (d && not (id == 0) && not (synced i)) ∷ flush_slots synced (i + 1) ids ds

abbrev pub no_l2 : L2Cache
no_l2 = record {
  enabled = false;
  capacity_bytes = 0;
  slot_size = 0;
  slots = 0;
  slot_ids = [];
  slot_blocks = [];
  dirty_flags = [];
  index = hash_table_create 0;
}

abbrev pub slot_size_of : ℕ → ℕ
slot_size_of block_size = if block_size == 0 then default_block_size else block_size

-- `mapped` says whether the backing file could be made and mapped.
unfoldable pub l2_init : ℕ → ℕ → Bool → Status × L2Cache
l2_init block_size capacity mapped =
    let slot_size = slot_size_of block_size in
    let slots = capacity / slot_size in
    let sized = record no_l2 { capacity_bytes = capacity; slot_size = slot_size; slots = slots } in
    if (capacity == 0)
    then (success, no_l2)
    else if ltb capacity (slot_size * 4)
    then (success, no_l2)
    else if not mapped
    then (failed, sized)
    else (
      success,
      record sized {
        enabled = true;
        slot_ids = replicate slots 0;
        slot_blocks = replicate slots none;
        dirty_flags = replicate slots false;
        index = hash_table_create (slots * 2);
      },
    )
