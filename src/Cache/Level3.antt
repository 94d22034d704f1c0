-- ===== src/Cache/Level3.antt =====
-- The third level of the cache, src/module_c/cache.c (l3_*): a file per block in the cache's directory,
-- and an index of the files. A node's entry is the node's value, so a write through the entry's pointer
-- is an assignment to the node, which the lookup before it has stamped. Writes to a file that opens are
-- taken to succeed, and memory for a node or an entry to be there.
pub mod Oldest
pub mod Eviction
pub mod Laws
use smartbackup_fs.Base.{
  ℕ, zero, suc, ◌+◌, ◌-◌, ◌*◌, ◌/◌, Bool, true, false, Option, none, some, List, [], ◌∷◌, ◌++◌,
  take, length, ltb, leb, ◌==◌, ◌&&◌, ◌||◌, not, if◌then◌else◌, Status, success, failed, eio,
}
use smartbackup_fs.HashTable.{
  Table, hash_table_create, hash_table_get, hash_table_set, hash_table_remove, hash_table_size,
}
use smartbackup_fs.HashTable.Chain.{Node}
use smartbackup_fs.Block.{DataBlock}
use smartbackup_fs.Block.Io.{bytes_of}
use smartbackup_fs.Cache.Level1.{take_off}
use smartbackup_fs.Cache.Level2.{l2_alloc_block, slot_size_of}

-- `l3_entry_t`
pub record L3Entry : Type 0 where
  pub block_id : ℕ
  pub size : ℕ
  pub last_access : ℕ

-- `l3_cache_t`; `files` is the cache's directory, by block id
pub record L3Cache : Type 0 where
  pub capacity_bytes : ℕ
  pub slot_size : ℕ
  pub max_entries : ℕ
  pub expire_seconds : ℕ
  pub current_bytes : ℕ
  pub index : Table L3Entry
  pub files : ℕ → Option (List ℕ)

abbrev pub put_l3_file : ℕ → Option (List ℕ) → L3Cache → L3Cache
put_l3_file id bytes c = record c { files = λ q. if q == id then bytes else c.files q }

abbrev pub drop_index : ℕ → L3Cache → L3Cache
drop_index id c = record c { index = (hash_table_remove c.index id).1 }

unfoldable pub l3_remove_entry : ℕ → ℕ → L3Cache → L3Cache
l3_remove_entry id now c =
    let (found, index) = hash_table_get c.index id now in
    let c' = record c { index = index } in
    elim found [
      | none ↦ c'
      | some e ↦
          drop_index id
            (record (put_l3_file id none c') { current_bytes = take_off c.current_bytes e.size })
    ]

-- all nodes, bucket by bucket
unfoldable pub all_nodes : List (List (Node L3Entry)) → List (Node L3Entry)
all_nodes [] = []
all_nodes (b ∷ bs) = b ++ all_nodes bs

-- `if (!oldest || ent->last_access < oldest->last_access) oldest = ent`
abbrev pub older : Option L3Entry → L3Entry → L3Entry
older none e = e
older (some o) e = if ltb e.last_access o.last_access then e else o

unfoldable pub find_oldest : Option L3Entry → List (Node L3Entry) → Option L3Entry
find_oldest o [] = o
find_oldest o (n ∷ ns) = find_oldest (some (older o n.value)) ns

-- whether the loop goes on
abbrev pub needs_room : ℕ → L3Cache → Bool
needs_room incoming c =
    ltb c.capacity_bytes (c.current_bytes + incoming) || leb c.max_entries (hash_table_size c.index)

-- The rounds of the loop, `n` at most; `none` if they do not suffice.
unfoldable pub evict_rounds : ℕ → ℕ → ℕ → L3Cache → Option L3Cache
evict_rounds zero incoming now c = none
evict_rounds (suc n) incoming now c = elim (needs_room incoming c) [
  | false ↦ some c
  | true ↦ elim (find_oldest none (all_nodes c.index.buckets)) [
    | none ↦ some c
    | some e ↦
        evict_rounds n incoming now (l3_remove_entry e.block_id now (drop_index e.block_id c))
  ]
]

unfoldable pub l3_evict_if_needed : ℕ → ℕ → L3Cache → L3Cache
l3_evict_if_needed incoming now c = elim (evict_rounds (c.index.count + 1) incoming now c) [
  | none ↦ c
  | some c' ↦ c'
]

abbrev pub l3_load_entry : ℕ → L3Entry → L3Cache → Option DataBlock
l3_load_entry slot_size e c = elim (c.files e.block_id) [
  | none ↦ none
  | some bytes ↦
      let read = take slot_size bytes in
      some (record (l2_alloc_block e.block_id slot_size) { buffer = some read; size = length read })
]

-- whether an entry is too old
abbrev pub is_expired : ℕ → ℕ → L3Entry → Bool
is_expired expire_seconds now e = ltb expire_seconds (now - e.last_access)

-- What a lookup comes to; the caller counts it, and places a block that was loaded in memory.
pub data L3Lookup : Type 0 where
  absent expired unreadable : L3Lookup
  loaded : DataBlock → L3Lookup

abbrev pub loaded_or : Option DataBlock → L3Lookup
loaded_or none = unreadable
loaded_or (some b) = loaded b

abbrev pub stamp_entry : ℕ → ℕ → L3Entry → L3Cache → L3Cache
stamp_entry id now e c = record c {
  index = (hash_table_set c.index id (some (record e { last_access = now })) now true).1;
}

unfoldable pub l3_cache_get : ℕ → ℕ → L3Cache → L3Lookup × L3Cache
l3_cache_get id now c =
    let (found, index) = hash_table_get c.index id now in
    let c' = record c { index = index } in
    elim found [
      | none ↦ (absent, c')
      | some e ↦
          if not (c.expire_seconds == 0) && is_expired c.expire_seconds now e
          then (expired, l3_remove_entry id now (drop_index id c'))
          else (loaded_or (l3_load_entry c.slot_size e c'), stamp_entry id now e c')
    ]

abbrev pub size_before : Option L3Entry → ℕ
size_before none = 0
size_before (some e) = e.size

-- the entry of the file that was written
abbrev pub index_file : ℕ → ℕ → ℕ → L3Cache → L3Cache
index_file id size now c =
    let (found, index) = hash_table_get c.index id now in
    let e : L3Entry = record { block_id = id; size = size; last_access = now } in
    record c {
      index = (hash_table_set index id (some e) now true).1;
      current_bytes = take_off c.current_bytes (size_before found) + size;
    }

abbrev pub store_size : DataBlock → L3Cache → ℕ
store_size b c = if ltb b.size c.slot_size then b.size else c.slot_size

-- the write of the bytes, which are read past the end of a buffer that holds fewer: `none`
abbrev pub write_l3 : DataBlock → ℕ → ℕ → L3Cache → Option L3Cache
write_l3 b size now c =
    if leb size (length (bytes_of b))
    then some
        (index_file b.block_id size now (put_l3_file b.block_id (some (take size (bytes_of b))) c))
    else none

-- `opened` says whether the file can be opened; the caller drops the error.
unfoldable pub l3_cache_put : DataBlock → ℕ → Bool → L3Cache → Option L3Cache
l3_cache_put b now opened c =
    let size = store_size b c in
    let roomy = l3_evict_if_needed size now c in
    if c.capacity_bytes == 0
    then some c
    else if opened
    then write_l3 b size now roomy
    else some roomy

-- the ids of the entries that have expired
unfoldable pub expired_ids : ℕ → ℕ → List (Node L3Entry) → List ℕ
expired_ids expire now [] = []
expired_ids expire now (n ∷ ns) =
    if is_expired expire now n.value
    then n.value.block_id ∷ expired_ids expire now ns
    else expired_ids expire now ns

unfoldable pub remove_entries : List ℕ → ℕ → L3Cache → L3Cache
remove_entries [] now c = c
remove_entries (id ∷ ids) now c = remove_entries ids now (l3_remove_entry id now c)

unfoldable pub l3_trim_expired : ℕ → L3Cache → L3Cache
l3_trim_expired now c =
    if (c.expire_seconds == 0) || (hash_table_size c.index == 0)
    then c
    else remove_entries
        (take (hash_table_size c.index)
          (expired_ids c.expire_seconds now (all_nodes c.index.buckets)))
        now c

-- `none` is a null `index`; `is_dir` says whether the cache's directory is there.
unfoldable pub l3_init : ℕ → ℕ → Bool → (ℕ → Option (List ℕ)) → Status × Option L3Cache
l3_init block_size capacity is_dir files =
    let slot_size = slot_size_of block_size in
    let n = capacity / slot_size in
    let max_entries = if n == 0 then 1 else n in
    if capacity == 0
    then (success, none)
    else if is_dir
    then (
      success,
      some (record {
        capacity_bytes = capacity;
        slot_size = slot_size;
        max_entries = max_entries;
        expire_seconds = 3600;
        current_bytes = 0;
        index = hash_table_create (max_entries * 2 + 1);
        files = files;
      }),
    )
    else (failed, none)

-- the files that the entries name are removed, with the index
unfoldable pub unlink_all : List (Node L3Entry) → (ℕ → Option (List ℕ)) → ℕ → Option (List ℕ)
unlink_all [] files q = files q
unlink_all (n ∷ ns) files q = if q == n.value.block_id then none else unlink_all ns files q

abbrev pub l3_shutdown : L3Cache → ℕ → Option (List ℕ)
l3_shutdown c = unlink_all (all_nodes c.index.buckets) c.files
