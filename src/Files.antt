-- ===== src/Files.antt =====
-- Writing a file, src/module_a/metadata_manager.c (smart_write_file), over
-- the cache and the deduplication. The file's block map is part of the file, its slots hold addresses
-- of blocks; offsets are not negative, sums of sizes stay below 2 ^ 63, and memory is taken to be there.
-- A loop whose rounds do not suffice, and an access to a freed block, have the result `none`.
pub mod Read
pub mod Shared
pub mod Holes
pub mod Rounds
pub mod Fresh
pub mod Hits
pub mod Again
pub mod Laws
use smartbackup_fs.Base.{
  ℕ, zero, suc, ◌+◌, ◌-◌, ◌*◌, ◌/◌, ◌%◌, Bool, true, false, Option, none, some, List, [], ◌∷◌, ◌++◌,
  take, drop, length, get_or, set, replicate, ltb, leb, ◌==◌, not, if◌then◌else◌, ◌⊎◌, inl, inr,
  Status, einval,
}
use smartbackup_fs.HashTable.{Table, hash_table_set}
use smartbackup_fs.Block.{DataBlock}
use smartbackup_fs.Block.Heap.{alloc}
use smartbackup_fs.Block.Io.{put_bytes, allocate_block, read_block, write_block}
use smartbackup_fs.Cache.{
  MultiCache, cache_get_block, cache_put_block, cache_prefetch, cache_invalidate_block,
}
use smartbackup_fs.Dedup.Config.{Load}
use smartbackup_fs.Dedup.Index.{Libraries, Blocks, heap_of, with_heap, write_to, with_block}
use smartbackup_fs.Dedup.{dedup_process_block_on_write}

-- the fields of `file_metadata_t` that are read and written here, with the block map
pub record OpenFile : Type 0 where
  pub ino : ℕ
  pub is_regular : Bool
  pub size : ℕ
  pub blocks : ℕ
  pub atime : ℕ
  pub mtime : ℕ
  pub slots : List (Option ℕ)
  pub block_index : Option (Table ℕ)

-- the block map with room for a slot
abbrev pub extend_slots : ℕ → List (Option ℕ) → List (Option ℕ)
extend_slots i slots =
    if leb (length slots) i then slots ++ replicate (i + 1 - length slots) none else slots

abbrev pub index_block : ℕ → ℕ → ℕ → Option (Table ℕ) → Option (Table ℕ)
index_block id addr now none = none
index_block id addr now (some t) = some (hash_table_set t id (some addr) now true).1

abbrev pub with_cache : MultiCache → Blocks → Blocks
with_cache c s = record s { cache = c }

abbrev pub cache_to : Blocks → Option MultiCache → Option Blocks
cache_to s none = none
cache_to s (some c) = some (with_cache c s)

abbrev pub put_in_cache : ℕ → Bool → Libraries → ℕ → Blocks → Option Blocks
put_in_cache now opened lib addr s =
    cache_to s (cache_put_block now opened lib.decompress addr s.cache)

-- how much of a block a round takes
abbrev pub block_part : ℕ → ℕ → ℕ → ℕ
block_part block_size offset left =
    let room = block_size - offset % block_size in if ltb left room then left else room

abbrev pub pair_file : OpenFile → Option Blocks → Option (OpenFile × Blocks)
pair_file f none = none
pair_file f (some s) = some (f, s)

abbrev pub report_written :
    ℕ → Option (OpenFile × Blocks) → Option ((Status ⊎ ℕ) × OpenFile × Blocks)
report_written n none = none
report_written n (some (f, s)) = some (inr n, f, s)

-- `junk` is what a buffer that was just allocated holds.
module _ (lib : Libraries) (load : Load) (block_size now : ℕ) (opened : Bool) (junk : List ℕ) where
  -- the new block of a slot
  abbrev pub new_block : ℕ → ℕ → ℕ → DataBlock
  new_block id ino i = record (allocate_block (lib.junk_type id) id junk) {
    file_ino = ino;
    offset = i * block_size;
  }

  -- the slot's block, and the file with it
  unfoldable pub take_slot : ℕ → OpenFile → Blocks → Option (ℕ × OpenFile × Blocks)
  take_slot i f s =
      let slots = extend_slots i f.slots in
      elim (get_or slots i none) [
        | some addr ↦ with_block ((heap_of s).cells addr) λ b. some (
          addr,
          record f { slots = slots },
          with_cache (cache_invalidate_block b.block_id now s.cache) s,
        )
        | none ↦
            let (addr, h) = alloc (new_block s.total_blocks f.ino i) (heap_of s) in
            some (
              addr,
              record f {
                slots = set slots i (some addr);
                block_index = index_block s.total_blocks addr now f.block_index;
              },
              record (with_heap h s) {
                total_blocks = s.total_blocks + 1;
                used_blocks = s.used_blocks + 1;
              },
            )
      ]

  -- the processed block goes to the slot, to the index and to the cache
  abbrev pub settle_slot : ℕ → ℕ → OpenFile → Blocks → Option (OpenFile × Blocks)
  settle_slot i addr f s = with_block ((heap_of s).cells addr) λ b.
      pair_file
        (record f {
          slots = set f.slots i (some addr);
          block_index = index_block b.block_id addr now f.block_index;
        })
        (put_in_cache now opened lib addr s)

  abbrev pub settle :
      ℕ → ℕ → OpenFile → Option (ℕ × Blocks) → Option ((Status ⊎ ℕ) × OpenFile × Blocks)
  settle i n f none = none
  settle i n f (some (own, s)) = report_written n (settle_slot i own f s)

  -- the written block is stored and processed
  abbrev pub after_write :
      ℕ
      → ℕ
      → OpenFile
      → Blocks
      → (Status ⊎ ℕ) × DataBlock
      → Option ((Status ⊎ ℕ) × OpenFile × Blocks)
  after_write i addr f s (inl e, b) = some (inl e, f, write_to addr b s)
  after_write i addr f s (inr n, b) =
      settle i n f (dedup_process_block_on_write lib load now addr (write_to addr b s))

  -- what a round comes to: the error, or the bytes written
  unfoldable pub write_slot :
      ℕ → ℕ → List ℕ → ℕ → OpenFile → Blocks → Option ((Status ⊎ ℕ) × OpenFile × Blocks)
  write_slot i addr bytes offset f s =
      with_block ((heap_of s).cells addr)
        λ b. after_write i addr f s (write_block lib.decompress b bytes offset)

  abbrev pub write_round :
      List ℕ → ℕ → OpenFile → Blocks → Option ((Status ⊎ ℕ) × OpenFile × Blocks)
  write_round buf offset f s =
      let i = offset / block_size in
      elim (take_slot i f s) [
        | none ↦ none
        | some (addr, f', s') ↦
            write_slot i addr (take (block_part block_size offset (length buf)) buf)
              (offset % block_size) f' s'
      ]

  -- The loop, of `n` rounds at most: `buf` is what is left, and `done` the bytes written.
  unfoldable pub write_rounds :
      ℕ → List ℕ → ℕ → ℕ → OpenFile → Blocks → Option ((Status ⊎ ℕ) × OpenFile × Blocks)
  write_rounds n [] offset done f s = some (inr done, f, s)
  write_rounds zero (b ∷ bs) offset done f s = none
  write_rounds (suc n) (b ∷ bs) offset done f s = elim (write_round (b ∷ bs) offset f s) [
    | none ↦ none
    | some (inl e, f', s') ↦ some (inl e, f', s')
    | some (inr k, f', s') ↦ write_rounds n (drop k (b ∷ bs)) (offset + k) (done + k) f' s'
  ]

  abbrev pub finish_write :
      Option ((Status ⊎ ℕ) × OpenFile × Blocks) → Option ((Status ⊎ ℕ) × OpenFile × Blocks)
  finish_write none = none
  finish_write (some (inl e, f, s)) = some (inl e, f, s)
  finish_write (some (inr k, f, s)) =
      some (inr k, record f { blocks = (f.size + block_size - 1) / block_size; mtime = now }, s)

  -- Every round writes a byte at least, so as many rounds as bytes suffice.
  unfoldable pub smart_write_file :
      OpenFile → List ℕ → ℕ → Blocks → Option ((Status ⊎ ℕ) × OpenFile × Blocks)
  smart_write_file f buf offset s =
      let end = offset + length buf in
      let f' = record f { size = if ltb f.size end then end else f.size } in
      if f.is_regular
      then finish_write (write_rounds (length buf) buf offset 0 f' s)
      else some (inl einval, f, s)
