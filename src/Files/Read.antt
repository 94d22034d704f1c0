-- ===== src/Files/Read.antt =====
-- smart_read_file of src/module_a/metadata_manager.c.
use smartbackup_fs.Base.{
  ℕ, zero, suc, ◌+◌, ◌-◌, ◌/◌, ◌%◌, Bool, Option, none, some, List, [], ◌∷◌, length, get_or,
  replicate, ltb, leb, not, if◌then◌else◌, ◌⊎◌, inl, inr, Status, einval,
}
use smartbackup_fs.Block.Io.{put_bytes, read_block}
use smartbackup_fs.Cache.{MultiCache, cache_get_block, cache_prefetch}
use smartbackup_fs.Dedup.Index.{Libraries, Blocks, heap_of, with_block}
use smartbackup_fs.Files.{OpenFile, with_cache, cache_to, put_in_cache, block_part}

-- what a lookup in the cache gives, or the slot's block
abbrev pub cached_or : ℕ → Option ℕ → ℕ
cached_or addr none = addr
cached_or addr (some hit) = hit

-- what a read comes to: the error, or the bytes counted and the caller's buffer
abbrev pub FileResult : Type 0
FileResult = Status ⊎ (ℕ × List ℕ)

module _ (lib : Libraries) (block_size now : ℕ) (opened : Bool) where
  -- the block of the next slot is looked up ahead
  abbrev pub prefetch_slot : Option ℕ → Blocks → Option Blocks
  prefetch_slot none s = some s
  prefetch_slot (some addr) s =
      with_block ((heap_of s).cells addr)
        λ b. cache_to s (cache_prefetch now opened lib.decompress (b.block_id ∷ []) s.cache)

  abbrev pub prefetch_after : Option ℕ → Option Blocks → Option Blocks
  prefetch_after next none = none
  prefetch_after next (some s) = prefetch_slot next s

  abbrev pub give_bytes : List ℕ → Option Blocks → Option ((Status ⊎ List ℕ) × Blocks)
  give_bytes bytes none = none
  give_bytes bytes (some s) = some (inr bytes, s)

  -- the block that was read goes to the cache, and the block of the next slot is looked up
  abbrev pub after_read :
      Option ℕ → ℕ → Blocks → Status ⊎ List ℕ → Option ((Status ⊎ List ℕ) × Blocks)
  after_read next addr s (inl e) = some (inl e, s)
  after_read next addr s (inr bytes) =
      give_bytes bytes (prefetch_after next (put_in_cache now opened lib addr s))

  abbrev pub read_from : ℕ → ℕ → Option ℕ → ℕ → Blocks → Option ((Status ⊎ List ℕ) × Blocks)
  read_from size offset next addr s =
      with_block ((heap_of s).cells addr)
        λ b. after_read next addr s (read_block lib.decompress b size offset)

  abbrev pub after_lookup :
      ℕ
      → ℕ
      → Option ℕ
      → ℕ
      → Blocks
      → Option (Option ℕ × MultiCache)
      → Option ((Status ⊎ List ℕ) × Blocks)
  after_lookup size offset next addr s none = none
  after_lookup size offset next addr s (some (hit, c)) =
      read_from size offset next (cached_or addr hit) (with_cache c s)

  -- the bytes of a slot's block, which the cache may know; `next` is the next slot
  abbrev pub read_slot : ℕ → ℕ → Option ℕ → ℕ → Blocks → Option ((Status ⊎ List ℕ) × Blocks)
  read_slot size offset next addr s = with_block ((heap_of s).cells addr) λ b.
      after_lookup size offset next addr s
        (cache_get_block now opened lib.decompress b.block_id s.cache)

  abbrev pub count_bytes :
      Option ((Status ⊎ List ℕ) × Blocks) → Option ((Status ⊎ (ℕ × List ℕ)) × Blocks)
  count_bytes none = none
  count_bytes (some (inl e, s)) = some (inl e, s)
  count_bytes (some (inr bytes, s)) = some (inr (length bytes, bytes), s)

  -- `n` bytes of the slot `i`
  abbrev pub read_at :
      ℕ → ℕ → ℕ → List (Option ℕ) → Blocks → Option ((Status ⊎ (ℕ × List ℕ)) × Blocks)
  read_at i n offset slots s =
      if leb (length slots) i
      then some (inr (0, replicate n 0), s)
      else elim (get_or slots i none) [
        | none ↦ some (inr (n, replicate n 0), s)
        | some addr ↦ count_bytes (read_slot n offset (get_or slots (i + 1) none) addr s)
      ]

  -- The error, or the bytes read and by how much the count grows: a hole past the block map does not
  -- count.
  unfoldable pub read_round :
      ℕ → ℕ → List (Option ℕ) → Blocks → Option ((Status ⊎ (ℕ × List ℕ)) × Blocks)
  read_round offset left slots s =
      read_at (offset / block_size) (block_part block_size offset left) (offset % block_size) slots
        s

  -- The loop, of `n` rounds at most: `left` bytes are to be read, and `done` are counted.
  unfoldable pub read_rounds :
      ℕ → ℕ → ℕ → ℕ → List ℕ → List (Option ℕ) → Blocks → Option (FileResult × Blocks)
  read_rounds n zero offset done buf slots s = some (inr (done, buf), s)
  read_rounds zero (suc left) offset done buf slots s = none
  read_rounds (suc n) (suc left) offset done buf slots s =
      elim (read_round offset (suc left) slots s) [
        | none ↦ none
        | some (inl e, s') ↦ some (inl e, s')
        | some (inr (k, bytes), s') ↦
            let taken = block_part block_size offset (suc left) in
            read_rounds n (suc left - taken) (offset + taken) (done + k) (put_bytes buf done bytes)
              slots s'
      ]

  abbrev pub finish_read :
      OpenFile → Option (FileResult × Blocks) → Option (FileResult × OpenFile × Blocks)
  finish_read f none = none
  finish_read f (some (inl e, s)) = some (inl e, f, s)
  finish_read f (some (inr r, s)) = some (inr r, record f { atime = now }, s)

  -- A round takes a byte at least, so as many rounds as bytes suffice.
  unfoldable pub smart_read_file :
      OpenFile → List ℕ → ℕ → ℕ → Blocks → Option (FileResult × OpenFile × Blocks)
  smart_read_file f buf size offset s =
      let remaining = f.size - offset in
      let wanted = if ltb remaining size then remaining else size in
      if not f.is_regular
      then some (inl einval, f, s)
      else if leb f.size offset
      then some (inr (0, buf), f, s)
      else finish_read f (read_rounds wanted wanted offset 0 buf f.slots s)
