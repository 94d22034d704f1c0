-- ===== src/Block/Io.antt =====
-- read_block, write_block and allocate_block of src/module_a/metadata_manager.c. A block's buffer is
-- not null, as `allocate_block` makes it; the bytes of the caller's buffer are a list, whose length
-- is the size asked for. A negative offset is refused as one past the end is.
use smartbackup_fs.Base.{
  ℕ, zero, suc, ◌+◌, ◌-◌, ◌*◌, ◌/◌, ◌%◌, ◌^◌, ◌<◌, ◌≤◌, ◌≡◌, refl, sym, ap, ◌∙◌, bit_xor, false,
  Option, none, some, List, [], ◌∷◌, ◌++◌, take, take-all, drop, length, length-take, replicate,
  ltb, leb, if◌then◌else◌, ◌⊎◌, inl, inr, Status, enospc, eio, arith,
}
use smartbackup_fs.Block.{DataBlock, Decompressor, is_compressed, block_decompress}

-- the block that `allocate_block` makes, of undefined bytes `junk`, and with an undefined file type
abbrev pub allocate_block : ℕ → ℕ → List ℕ → DataBlock
allocate_block junk_type total_blocks junk = record {
  block_id = total_blocks;
  buffer = some junk;
  size = length junk;
  compressed_size = 0;
  file_type = junk_type;
  hash = replicate 32 0;
  compression = 0;
  ref_count = 1;
  file_ino = 0;
  offset = 0;
  checksum = 0;
}

abbrev pub clip : ℕ → ℕ → ℕ → ℕ
clip block_size size offset = if ltb block_size (offset + size) then block_size - offset else size

-- the plain bytes that a read takes from
abbrev pub source_bytes : Decompressor → DataBlock → Option (List ℕ)
source_bytes codec b = if is_compressed b then block_decompress codec b else b.buffer

-- The bytes read, or the error.
unfoldable pub read_block : Decompressor → DataBlock → ℕ → ℕ → Status ⊎ List ℕ
read_block codec b size offset = if leb b.size offset then inr [] else elim (source_bytes codec b) [
  | none ↦ inl eio
  | some bytes ↦ inr (take (clip b.size size offset) (drop offset bytes))
]

-- `memcpy` into a buffer
abbrev pub put_bytes : List ℕ → ℕ → List ℕ → List ℕ
put_bytes bytes offset new = take offset bytes ++ (new ++ drop (offset + length new) bytes)

unfoldable pub sum_bytes : List ℕ → ℕ
sum_bytes [] = 0
sum_bytes (b ∷ bs) = b % 2 ^ 8 + sum_bytes bs

-- the bytes `i`, `i + 1`, … of the hash of which `n` are left
unfoldable pub hash_bytes : ℕ → ℕ → ℕ → List ℕ
hash_bytes zero sum i = []
hash_bytes (suc n) sum i = bit_xor (sum / 2 ^ (i % 4 * 8)) (i * 31) % 256 ∷ hash_bytes n sum (i + 1)

-- the block with new plain bytes, its checksum and hash
unfoldable pub with_bytes : DataBlock → List ℕ → DataBlock
with_bytes b bytes =
    let sum = sum_bytes bytes % 2 ^ 32 in
    record b { buffer = some bytes; checksum = sum; hash = hash_bytes 32 sum 0 }

-- the block as it is stored plainly
unfoldable pub plain_block : Decompressor → DataBlock → Option DataBlock
plain_block codec b =
    if is_compressed b
    then elim (block_decompress codec b) [
      | none ↦ none
      | some plain ↦ some (record b {
        buffer = some plain;
        size = length plain;
        compressed_size = 0;
        compression = 0;
      })
    ]
    else some b

abbrev pub bytes_of : DataBlock → List ℕ
bytes_of b = elim b.buffer [ none ↦ [] | some bytes ↦ bytes ]

-- what is written once the block is plain
abbrev pub store : List ℕ → ℕ → DataBlock → ℕ → (Status ⊎ ℕ) × DataBlock
store buf offset b n = (inr n, with_bytes b (put_bytes (bytes_of b) offset (take n buf)))

-- The number of bytes written, or the error; and the block.
unfoldable pub write_block : Decompressor → DataBlock → List ℕ → ℕ → (Status ⊎ ℕ) × DataBlock
write_block codec b buf offset =
    if leb b.size offset then (inl enospc, b) else elim (plain_block codec b) [
      | none ↦ (inl eio, b)
      | some b' ↦ store buf offset b' (clip b.size (length buf) offset)
    ]

pub take-append : (xs ys : List ℕ) → take (length xs) (xs ++ ys) ≡ xs
take-append [] ys = refl
take-append (x ∷ xs) ys = ap (λ r. x ∷ r) (take-append xs ys)

pub drop-append : (xs ys : List ℕ) → drop (length xs) (xs ++ ys) ≡ ys
drop-append [] ys = refl
drop-append (x ∷ xs) ys = drop-append xs ys

-- what was put is read back
pub take-put_bytes :
    (bytes new : List ℕ) (offset : ℕ)
    → offset ≤ length bytes
    → take (length new) (drop offset (put_bytes bytes offset new)) ≡ new
take-put_bytes bytes new offset h =
    let start : length (take offset bytes) ≡ offset = omega (arith, length-take offset bytes) in
    let rest = new ++ drop (offset + length new) bytes in
    ap (λ k. take (length new) (drop k (take offset bytes ++ rest))) (sym start)
    ∙ ap (take (length new)) (drop-append (take offset bytes) rest)
    ∙ take-append new (drop (offset + length new) bytes)

size-with_bytes : (b : DataBlock) (bytes : List ℕ) → (with_bytes b bytes).size ≡ b.size
unfolding with_bytes
size-with_bytes b bytes = refl

pub is_compressed-with_bytes :
    (b : DataBlock) (bytes : List ℕ) → is_compressed (with_bytes b bytes) ≡ is_compressed b
unfolding with_bytes is_compressed
is_compressed-with_bytes b bytes = refl

clip_fits : (size n offset : ℕ) → offset + n ≤ size → clip size n offset ≡ n
clip_fits size n offset h = ground arith

module _ (codec : Decompressor) (b : DataBlock) where
  pub write_plain :
      (bytes buf : List ℕ) (offset : ℕ)
      → b.buffer ≡ some bytes
      → is_compressed b ≡ false
      → offset < b.size
      → offset + length buf ≤ b.size
      → write_block codec b buf offset
        ≡ (inr (length buf), with_bytes b (put_bytes bytes offset buf))
  unfolding write_block plain_block
  write_plain bytes buf offset e plain inside room =
      let n = clip b.size (length buf) offset in
      let within : leb b.size offset ≡ false = ground arith in
      let fits : n ≡ length buf = clip_fits b.size (length buf) offset room in
      let kept : plain_block codec b ≡ some b = rw plain refl in
      let held : bytes_of b ≡ bytes = rw e refl in
      let all : take (length buf) buf ≡ buf = take-all buf (length buf) (omega arith) in
      rw (within, kept)
        (ap (store buf offset b) fits
          ∙ ap (λ new. (inr (length buf), with_bytes b (put_bytes (bytes_of b) offset new))) all
          ∙ ap (λ old. (inr (length buf), with_bytes b (put_bytes old offset buf))) held)

  pub read_plain :
      (bytes : List ℕ) (size offset : ℕ)
      → is_compressed b ≡ false
      → offset < b.size
      → offset + size ≤ b.size
      → read_block codec (with_bytes b bytes) size offset ≡ inr (take size (drop offset bytes))
  unfolding read_block with_bytes
  read_plain bytes size offset plain inside room =
      let within : leb b.size offset ≡ false = ground arith in
      let fits = clip_fits b.size size offset room in
      let stored = is_compressed-with_bytes b bytes ∙ plain in rw (within, stored, fits) refl

-- Bytes that fit into a plain block, at an offset in it, are written whole and read back the same,
-- and the block keeps its size and stays plain.
pub read_block-write_block :
    (codec : Decompressor) (b : DataBlock) (bytes buf : List ℕ) (offset : ℕ)
    → b.buffer ≡ some bytes
    → length bytes ≡ b.size
    → is_compressed b ≡ false
    → offset < b.size
    → offset + length buf ≤ b.size
    → let (r, b') = write_block codec b buf offset in
      (r ≡ inr (length buf))
      × (b'.size ≡ b.size)
      × (is_compressed b' ≡ false)
      × (read_block codec b' (length buf) offset ≡ inr buf)
read_block-write_block codec b bytes buf offset e sized plain inside room =
    let new = put_bytes bytes offset buf in
    let written = write_plain codec b bytes buf offset e plain inside room in
    let old : offset ≤ length bytes = omega (arith, sized, inside) in
    let again = read_plain codec b new (length buf) offset plain inside room in
    (
      ap (λ r. r.0) written,
      ap (λ r. r.1.size) written ∙ size-with_bytes b new,
      ap (λ r. is_compressed r.1) written ∙ is_compressed-with_bytes b new ∙ plain,
      ap (λ r. read_block codec r.1 (length buf) offset) written
          ∙ again
          ∙ ap inr (take-put_bytes bytes buf offset old),
    )
