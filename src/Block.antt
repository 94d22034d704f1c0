-- ===== src/Block.antt =====
-- Data blocks: `data_block_t` and `block_map_t` of include/smartbackupfs.h, and the functions that
-- read them, from src/module_c/dedup.c (block_decompress) and src/module_a/metadata_manager.c
-- (read_block, write_block). The registered decompressors (LZ4, zstd, zlib) are a parameter: what
-- the function of an algorithm makes of the input within an output capacity, `none` if it fails or
-- none is registered.
pub mod Heap
pub mod Io
use smartbackup_fs.Base.{
  ℕ, zero, suc, ◌+◌, ◌-◌, ◌*◌, ◌/◌, ◌%◌, ◌^◌, bit_xor, Bool, true, false, ◌&&◌, not, Option, none,
  some, List, [], ◌∷◌, ◌++◌, take, drop, length, ltb, leb, ◌==◌, if◌then◌else◌,
}

-- `data_block_t`; the buffer is `data`
pub record DataBlock : Type 0 where
  pub block_id : ℕ
  pub buffer : Option (List ℕ)
  pub size : ℕ
  pub compressed_size : ℕ
  pub file_type : ℕ
  pub hash : List ℕ
  pub compression : ℕ
  pub ref_count : ℕ
  pub file_ino : ℕ
  pub offset : ℕ
  pub checksum : ℕ

-- `block_map_t`; `block_count` is the length of `blocks`
pub record BlockMap : Type 0 where
  pub file_ino : ℕ
  pub blocks : List (Option DataBlock)
  pub version_id : ℕ

-- algorithm, input, capacity of the output
abbrev pub Decompressor : Type 0
Decompressor = ℕ → List ℕ → ℕ → Option (List ℕ)

unfoldable pub is_compressed : DataBlock → Bool
is_compressed b = ltb 0 b.compressed_size && not (b.compression == 0)

-- The output, of which `*out_size` is the length; `none` is -1. `allocate_block` gives every block a
-- buffer, so `none` for the buffer is a null pointer, which a plain block would read through.
unfoldable pub block_decompress : Decompressor → DataBlock → Option (List ℕ)
unfolding is_compressed
block_decompress codec b = elim b.buffer [
  | none ↦ none
  | some bytes ↦
      if is_compressed b
      then codec b.compression (take b.compressed_size bytes) b.size
      else some (take b.size bytes)
]

-- The plain bytes as the version manager and the cache take them; if the decompressor fails, the
-- version manager goes on with the stored bytes.
unfoldable pub plain_bytes : Decompressor → Option DataBlock → Option (List ℕ)
plain_bytes codec none = none
plain_bytes codec (some b) = elim b.buffer [
  | none ↦ none
  | some bytes ↦
      if is_compressed b
      then (elim (block_decompress codec b) [
        | some out ↦ some out
        | none ↦ some (take b.size bytes)
      ])
      else some (take b.size bytes)
]
