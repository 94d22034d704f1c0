-- ===== src/Cache/Level1.antt =====
-- The first level of the cache, src/module_c/cache.c (l1_*): a table from block ids to blocks, and the
-- list of the ids in the order of their insertion, which bounds the bytes. A block is the address of
-- its data_block_t. Sums of the sizes of blocks in memory stay below 2 ^ 64; `now` is the clock, which
-- stands still during a call, and memory for a node is taken to be there.
pub mod Laws
pub mod Put
use smartbackup_fs.Base.{
  ℕ, ◌+◌, ◌-◌, ◌*◌, Bool, true, false, Option, none, some, List, [], ◌∷◌, ◌++◌, ltb, leb, ◌==◌,
  ◌&&◌, not, if◌then◌else◌,
}
use smartbackup_fs.HashTable.{Table, hash_table_create, hash_table_set, hash_table_remove}
use smartbackup_fs.Block.{DataBlock, is_compressed}

-- `l1_entry_t`
pub record L1Entry : Type 0 where
  pub block_id : ℕ
  pub size : ℕ

-- `l1_cache_t`; `head` and `tail` are the ends of `entries`
pub record L1Cache : Type 0 where
  pub table : Table ℕ
  pub max_bytes : ℕ
  pub current_bytes : ℕ
  pub entries : List L1Entry

-- the bytes that a block counts for
abbrev pub l1_block_size : DataBlock → ℕ
l1_block_size b = if is_compressed b then b.compressed_size else b.size

-- the entry of an id, if there is one
unfoldable pub find_l1 : ℕ → List L1Entry → Option L1Entry
find_l1 id [] = none
find_l1 id (e ∷ es) = if e.block_id == id then some e else find_l1 id es

unfoldable pub drop_l1 : ℕ → List L1Entry → List L1Entry
drop_l1 id [] = []
drop_l1 id (e ∷ es) = if e.block_id == id then es else e ∷ drop_l1 id es

-- `if (bytes >= size) bytes -= size`
abbrev pub take_off : ℕ → ℕ → ℕ
take_off bytes size = if leb size bytes then bytes - size else bytes

unfoldable pub l1_remove_entry : ℕ → L1Cache → L1Cache
l1_remove_entry id c = elim (find_l1 id c.entries) [
  | none ↦ c
  | some e ↦ record c {
    entries = drop_l1 id c.entries;
    current_bytes = take_off c.current_bytes e.size;
  }
]

abbrev pub l1_track_insert : ℕ → ℕ → L1Cache → L1Cache
l1_track_insert id size c = record c {
  entries = c.entries ++ (record { block_id = id; size = size } ∷ []);
  current_bytes = c.current_bytes + size;
}

-- whether the loop goes on
abbrev pub is_over : ℕ → ℕ → ℕ → Bool
is_over max_bytes current incoming = not (max_bytes == 0) && ltb max_bytes (current + incoming)

-- The loop: the entries, the bytes and the table at its end.
unfoldable pub evict : ℕ → ℕ → List L1Entry → ℕ → Table ℕ → List L1Entry × ℕ × Table ℕ
evict max_bytes incoming [] current t = ([], current, t)
evict max_bytes incoming (victim ∷ es) current t =
    let rest =
      evict max_bytes incoming es (take_off current victim.size)
        (hash_table_remove t victim.block_id).1 in
    if is_over max_bytes current incoming then rest else (victim ∷ es, current, t)

unfoldable pub l1_evict_until_fit : ℕ → L1Cache → L1Cache
l1_evict_until_fit incoming c =
    let (es, current, t) = evict c.max_bytes incoming c.entries c.current_bytes c.table in
    record c { entries = es; current_bytes = current; table = t }

abbrev pub l1_clear : L1Cache → L1Cache
l1_clear c = record c { entries = []; current_bytes = 0 }

-- `cache_put_block` under the lock of the first level: the block at `addr` becomes the newest entry
unfoldable pub l1_put : ℕ → ℕ → ℕ → ℕ → L1Cache → L1Cache
l1_put id size addr now c =
    let room = l1_evict_until_fit size (l1_remove_entry id c) in
    l1_track_insert id size
      (record room { table = (hash_table_set room.table id (some addr) now true).1 })

-- `cache_invalidate_block` under that lock
unfoldable pub l1_invalidate : ℕ → L1Cache → L1Cache
l1_invalidate id c = l1_remove_entry id (record c { table = (hash_table_remove c.table id).1 })

-- the first level as `cache_system_init` makes it, of 64 MiB if no size is given
abbrev pub l1_init : ℕ → L1Cache
l1_init l1_bytes = record {
  table = hash_table_create 16384;
  max_bytes = if l1_bytes == 0 then 64 * 1024 * 1024 else l1_bytes;
  current_bytes = 0;
  entries = [];
}
