-- ===== src/Tests/Storage.antt =====
-- Inputs for the hash table, the bounded cache, directories and data blocks
-- (src/module_a/metadata_manager.c).
use smartbackup_fs.Base.{
  ℕ, ◌+◌, ◌-◌, ◌≤◌, ◌≡◌, refl, List, [], ◌∷◌, none, some, true, false, ◌==◌, if◌then◌else◌, success,
  eexist, enoent, inr, arith,
}
use smartbackup_fs.HashTable.{
  Table, hash_table_create, hash_table_set, hash_table_get, hash_table_remove,
}
use smartbackup_fs.HashTable.Buckets.{IsValid, Models, view, hash_table_create-Models}
use smartbackup_fs.HashTable.Laws.{
  found, hash_table_set-Models, hash_table_get-Models, hash_table_remove-Models,
}
use smartbackup_fs.Lru.{LruCache, lru_cache_put}
use smartbackup_fs.Lru.Laws.{PutResult, lru_cache_put-Models}
use smartbackup_fs.Directory
use smartbackup_fs.Directory.{
  DirEntry, add_directory_entry, find_directory_entry, remove_directory_entry,
}
use smartbackup_fs.Directory.Laws
use smartbackup_fs.Directory.Laws.{add_directory_entry-lem, remove_directory_entry-lem}
use smartbackup_fs.Version.Query.{same_text}
use smartbackup_fs.Block.{DataBlock, Decompressor, is_compressed}
use smartbackup_fs.Block.Io.{allocate_block, read_block, write_block, read_block-write_block}

abbrev start : Table ℕ
start = hash_table_create 4

start-Models : Models 4 0 (λ _. none) start
start-Models = hash_table_create-Models 4 (omega arith)

hash_table_set-Models_example :
    let (s, t') = hash_table_set start 7 (some 70) 1000 true in
    (s ≡ success)
    × Models start.size
        (start.count + 1 - found (view start 7))
        (λ q. if q == 7 then some 70 else view start q)
        t'
hash_table_set-Models_example = hash_table_set-Models start-Models.valid 7 70 1000

-- a table with one key
abbrev one : Table ℕ
one = (hash_table_set start 7 (some 70) 1000 true).1

one-IsValid : IsValid one
one-IsValid = (hash_table_set-Models start-Models.valid 7 70 1000).1.valid

hash_table_get-Models_example :
    let (r, t') = hash_table_get one 7 1001 in
    (r ≡ view one 7) × Models one.size one.count (view one) t'
hash_table_get-Models_example = hash_table_get-Models one-IsValid 7 1001

hash_table_remove-Models_example :
    let (s, t') = hash_table_remove one 7 in
    (s ≡ (if found (view one 7) == 1 then success else enoent))
    × Models one.size (one.count - found (view one 7)) (λ q. if q == 7 then none else view one q) t'
hash_table_remove-Models_example = hash_table_remove-Models one-IsValid 7

-- a cache that is full with the key 7
abbrev cache : LruCache ℕ
cache = record { table = one; max_size = 1; current_size = 0 }

cache-count : cache.table.count ≤ 1
cache-count =
    let m = (hash_table_set-Models start-Models.valid 7 70 1000).1 in
    omega (arith, m.same_count, start-Models.same_count)

lru_cache_put-Models_example :
    let (s, c') = lru_cache_put cache 9 (some 90) 1001 true in
    (s ≡ success)
    × (c'.table.count ≤ cache.max_size)
    × (c'.max_size ≡ cache.max_size)
    × IsValid c'.table
    × PutResult cache 9 90 (view c'.table)
lru_cache_put-Models_example =
    lru_cache_put-Models cache 9 1001 90 one-IsValid (omega arith) cache-count

-- a directory with the entry "a"
abbrev dir : Directory.Directory
dir = record {
  entries = record { name = 97 ∷ []; ino = 5 } ∷ [];
  entry_count = 1;
  size = 4121;
  blocks = 2;
  mtime = 1000;
}

dir-IsValid : Directory.Laws.IsValid 4096 dir
unfolding Directory.find_entry Directory.Laws.Distinct Directory.Laws.entry_bytes
dir-IsValid = record { distinct = (refl, tt); counted = refl; sized = refl; bounded = omega arith }

add_directory_entry-lem_example :
    let (r, dir') = add_directory_entry dir (98 ∷ []) 6 1001 true in
    Directory.Laws.IsValid 4096 dir'
    × (r ≡ (elim (find_directory_entry dir (98 ∷ [])) [ none ↦ success | some _ ↦ eexist ]))
    × ((e : DirEntry) → find_directory_entry dir (98 ∷ []) ≡ some e → dir' ≡ dir)
    × ((other : List ℕ)
        → same_text (98 ∷ []) other ≡ false
        → find_directory_entry dir' other ≡ find_directory_entry dir other)
    × (find_directory_entry dir (98 ∷ []) ≡ none
        → find_directory_entry dir' (98 ∷ []) ≡ some (record { name = 98 ∷ []; ino = 6 }))
add_directory_entry-lem_example =
    add_directory_entry-lem 4096 dir (98 ∷ []) 6 1001 dir-IsValid (omega arith)

remove_directory_entry-lem_example :
    let (r, dir') = remove_directory_entry dir (97 ∷ []) 1002 in
    Directory.Laws.IsValid 4096 dir'
    × (r ≡ (elim (find_directory_entry dir (97 ∷ [])) [ none ↦ enoent | some _ ↦ success ]))
    × (find_directory_entry dir (97 ∷ []) ≡ none → dir' ≡ dir)
    × ((other : List ℕ)
        → find_directory_entry dir' other
          ≡ (if same_text (97 ∷ []) other then none else find_directory_entry dir other))
remove_directory_entry-lem_example = remove_directory_entry-lem 4096 dir (97 ∷ []) 1002 dir-IsValid

abbrev block : DataBlock
block = allocate_block 1 3 (0 ∷ 0 ∷ 0 ∷ 0 ∷ [])

abbrev no_codec : Decompressor
no_codec algorithm bytes capacity = none

block-plain : is_compressed block ≡ false
unfolding is_compressed
block-plain = refl

read_block-write_block_example :
    let (r, b') = write_block no_codec block (8 ∷ 9 ∷ []) 1 in
    (r ≡ inr 2)
    × (b'.size ≡ 4)
    × (is_compressed b' ≡ false)
    × (read_block no_codec b' 2 1 ≡ inr (8 ∷ 9 ∷ []))
read_block-write_block_example =
    read_block-write_block no_codec block (0 ∷ 0 ∷ 0 ∷ 0 ∷ []) (8 ∷ 9 ∷ []) 1 refl refl block-plain
      (omega arith) (omega arith)
