-- ===== src/Dedup.antt =====
-- Compression and the processing of a block that was written: src/module_c/dedup.c and
-- adaptive_compress.c. Every caller passes the configuration `dedup_config`, which the choice of an
-- algorithm overwrites.
pub mod Config
pub mod Index
pub mod Serial
use smartbackup_fs.Base.{
  ℕ, zero, suc, ◌+◌, ◌-◌, ◌*◌, ◌/◌, ◌%◌, ◌^◌, Bool, true, false, ◌&&◌, ◌||◌, not, Option, none,
  some, List, [], ◌∷◌, take, length, ltb, leb, ◌==◌, if◌then◌else◌,
}
use smartbackup_fs.Block.{DataBlock, is_compressed}
use smartbackup_fs.Block.Io.{bytes_of}
use smartbackup_fs.Stats.{smb_update_dedup_on_hit, smb_update_compress, smb_update_compress_class}
use smartbackup_fs.Dedup.Config.{
  DedupConfig, compression_none, compression_gzip, dedup_validate_config, dedup_set_compression,
  clamp_level, Load, ac_detect_file_type, ac_select_algorithm, level_under_load,
}
use smartbackup_fs.Dedup.Index.{
  Libraries, Blocks, heap_of, write_to, with_block, block_compute_hash, is_hashable,
  dedup_find_duplicate, dedup_index_block, dedup_release_block, copy_on_write,
}

-- the block marked as plain
abbrev pub mark_plain : DataBlock → DataBlock
mark_plain b = record b { compressed_size = 0; compression = compression_none }

-- what `block_compress` comes to: whether it succeeds, the block, and the bytes saved
pub record Packed : Type 0 where
  pub done : Bool
  pub block : DataBlock
  pub saved : ℕ

abbrev pub left_plain : DataBlock → Packed
left_plain b = record { done = true; block = mark_plain b; saved = 0 }

-- An output that is no smaller is thrown away.
abbrev pub take_output : ℕ → DataBlock → Option (List ℕ) → Packed
take_output algo b none = record { done = false; block = b; saved = 0 }
take_output algo b (some out) = if leb b.size (length out) then left_plain b else record {
  done = true;
  block = record b { buffer = some out; compressed_size = length out; compression = algo };
  saved = b.size - length out;
}

unfoldable pub block_compress : Libraries → DedupConfig → DataBlock → Packed
block_compress lib cfg b =
    if is_compressed b
    then record { done = true; block = b; saved = 0 }
    else if not cfg.enable_compression
        || (cfg.algo == compression_none)
        || ltb b.size cfg.min_compress_size
    then left_plain b
    else if (cfg.algo == compression_gzip) && not lib.have_zlib
    then left_plain b
    else take_output cfg.algo b (
        lib.compress cfg.algo (take b.size (bytes_of b)) (lib.bound cfg.algo b.size)
          cfg.compression_level)

abbrev pub count_class : ℕ → ℕ → ℕ → Blocks → Blocks
count_class type raw size s = record s {
  classes = smb_update_compress_class type raw size s.classes;
}

abbrev pub effective_size : DataBlock → ℕ
effective_size b = if ltb 0 b.compressed_size then b.compressed_size else b.size

-- The choice for this block stays in the configuration.
abbrev pub choose : Load → DataBlock → Blocks → Blocks
choose load b s = record s {
  dedup_config =
      dedup_set_compression (ac_select_algorithm load b s.dedup_config)
        (clamp_level (level_under_load load s.dedup_config.compression_level)) s.dedup_config;
}

-- once the algorithm is chosen
abbrev pub pack : Libraries → ℕ → DataBlock → Blocks → Blocks
pack lib addr b s =
    let p = block_compress lib s.dedup_config b in
    let s' = record (write_to addr p.block s) { saved_space = s.saved_space + p.saved } in
    if s.dedup_config.algo == compression_none
    then count_class b.file_type b.size b.size (write_to addr (mark_plain b) s)
    else if p.done
    then count_class b.file_type b.size (effective_size p.block) s'
    else s'

unfoldable pub ac_adaptive_compress_block : Libraries → Load → ℕ → Blocks → Option Blocks
ac_adaptive_compress_block lib load addr s =
    with_block ((heap_of s).cells addr)
      λ b. some (pack lib addr (record b { file_type = ac_detect_file_type b }) (choose load b s))

-- the counter of the bytes that compression saved
abbrev pub count_compressed : ℕ → DataBlock → Blocks → Blocks
count_compressed before b s =
    if ltb 0 b.compressed_size && ltb b.compressed_size before
    then record s { storage = smb_update_compress before b.compressed_size s.storage }
    else s

module _ (lib : Libraries) (load : Load) (now : ℕ) where
  -- whether or not compression is on
  abbrev pub compress_if : Bool → ℕ → DataBlock → Blocks → Option (ℕ × Blocks)
  compress_if false addr b s = some (addr, write_to addr (mark_plain b) s)
  compress_if true addr b s = elim (ac_adaptive_compress_block lib load addr s) [
    | none ↦ none
    | some s' ↦
        with_block ((heap_of s').cells addr) λ b'. some (addr, count_compressed b.size b' s')
  ]

  -- the last part of `dedup_process_block_on_write`, on the slot's block
  abbrev pub compress_slot : ℕ → Blocks → Option (ℕ × Blocks)
  compress_slot addr s =
      with_block ((heap_of s).cells addr)
        λ b. compress_if s.dedup_config.enable_compression addr b s

  -- the duplicate takes the slot, and the block loses its reference
  abbrev pub take_duplicate : ℕ → ℕ → Blocks → Option (ℕ × Blocks)
  take_duplicate addr dup s = elim (dedup_release_block now addr s) [
    | none ↦ none
    | some s1 ↦ with_block ((heap_of s1).cells dup) λ b. compress_slot dup (record s1 {
      saved_space = s1.saved_space + b.size;
      storage = smb_update_dedup_on_hit b.size s1.storage;
    })
  ]

  abbrev pub use_found : ℕ → List ℕ → Option ℕ → Blocks → Option (ℕ × Blocks)
  use_found addr hash none s = compress_slot addr (dedup_index_block now hash addr s)
  use_found addr hash (some dup) s =
      if dup == addr then compress_slot addr s else take_duplicate addr dup s

  -- whether or not deduplication is on
  abbrev pub deduplicate_if : Bool → ℕ → List ℕ → Blocks → Option (ℕ × Blocks)
  deduplicate_if false addr hash s = compress_slot addr s
  deduplicate_if true addr hash s = elim (dedup_find_duplicate now hash s) [
    | none ↦ none
    | some (found, s') ↦ use_found addr hash found s'
  ]

  abbrev pub process_hashed : ℕ → DataBlock → Blocks → Option (ℕ × Blocks)
  process_hashed addr hashed s =
      deduplicate_if s.dedup_config.enable_deduplication addr hashed.hash (write_to addr hashed s)

  -- After the copy on write. To hash a block whose buffer is shorter than its size is `none`.
  abbrev pub process_own : ℕ → Blocks → Option (ℕ × Blocks)
  process_own addr s =
      with_block ((heap_of s).cells addr)
        λ b. if is_hashable b then process_hashed addr (block_compute_hash lib b) s else none

  -- The address that the slot holds afterwards.
  unfoldable pub dedup_process_block_on_write : ℕ → Blocks → Option (ℕ × Blocks)
  dedup_process_block_on_write addr s = elim (copy_on_write now lib addr s) [
    | none ↦ none
    | some (own, s') ↦ process_own own s'
  ]

-- both configurations; the file that keeps them is left out
unfoldable pub dedup_update_config : Bool → Bool → ℕ → ℕ → ℕ → Blocks → Blocks
dedup_update_config dedup comp algo level min_size s =
    let cfg = dedup_validate_config (record {
      enable_deduplication = dedup;
      enable_compression = comp;
      algo = algo;
      compression_level = level;
      min_compress_size = min_size;
    }) in
    record s { g_config = cfg; dedup_config = cfg }
