-- ===== src/Dedup/Serial.antt =====
-- The record of a block's metadata, src/module_c/dedup.c (block_metadata_serialize and
-- block_metadata_deserialize). A buffer is the memory from its start on, and `buf_size` what its caller
-- says of it; numbers are in little-endian order.
use smartbackup_fs.Base.{
  ℕ, ◌+◌, ◌*◌, ◌%◌, ◌^◌, ◌≤◌, ◌<◌, ◌≡◌, refl, sym, ap, ◌∙◌, false, Option, none, some, List, ◌++◌,
  append_assoc, take, drop, length, length-append, length-take, take-all, ltb, if◌then◌else◌, arith,
}
use smartbackup_fs.Block.{DataBlock}
use smartbackup_fs.Block.Io.{take-append, drop-append}
use smartbackup_fs.Wal.Header.{to_bytes, from_bytes, room, from_bytes-to_bytes, length-to_bytes}

-- what both functions ask of the buffer
abbrev pub needed : ℕ
needed = 8 * 3 + 1 + 32

-- the bytes that are written from the start of the buffer on
unfoldable pub fields : DataBlock → List ℕ
fields b =
    to_bytes 8 b.block_id
    ++ to_bytes 8 b.size
    ++ to_bytes 8 b.compressed_size
    ++ to_bytes 1 b.compression
    ++ take 32 b.hash
    ++ to_bytes 8 b.ref_count

-- The bytes written, `none` if the buffer is refused; the function returns how many they are.
unfoldable pub block_metadata_serialize : DataBlock → ℕ → Option (List ℕ)
block_metadata_serialize b buf_size = if ltb buf_size needed then none else some (fields b)

-- The block filled in, `none` if the buffer is refused.
unfoldable pub block_metadata_deserialize : List ℕ → ℕ → DataBlock → Option DataBlock
block_metadata_deserialize buf buf_size b =
    let (block_id, bs1) = from_bytes 8 buf in
    let (size, bs2) = from_bytes 8 bs1 in
    let (compressed_size, bs3) = from_bytes 8 bs2 in
    let (compression, bs4) = from_bytes 1 bs3 in
    let (ref_count, bs5) = from_bytes 8 (drop 32 bs4) in
    if ltb buf_size needed
    then none
    else some (record b {
      block_id = block_id;
      size = size;
      compressed_size = compressed_size;
      compression = compression;
      hash = take 32 bs4;
      ref_count = ref_count % 2 ^ 32;
    })

-- the fields of `b` in the block `old`
abbrev pub filled : DataBlock → DataBlock → DataBlock
filled old b = record old {
  block_id = b.block_id;
  size = b.size;
  compressed_size = b.compressed_size;
  compression = b.compression;
  hash = b.hash;
  ref_count = b.ref_count;
}

-- Every field fits its width.
pub record Fits (b : DataBlock) : Type 0 where
  pub block_id : b.block_id < room 8
  pub size : b.size < room 8
  pub compressed_size : b.compressed_size < room 8
  pub compression : b.compression < room 1
  pub hash : length b.hash ≡ 32
  pub ref_count : b.ref_count < 2 ^ 32

length-fields : (b : DataBlock) → length b.hash ≡ 32 → length (fields b) ≡ 65
unfolding fields to_bytes
length-fields b h = omega (
  arith,
  length-append (take 32 b.hash) (to_bytes 8 b.ref_count),
  length-take 32 b.hash,
  length-to_bytes 8 b.ref_count,
  h,
)

-- the reads of the fields, one after the other
read_fields :
    (b old : DataBlock) (buf_size : ℕ) (r1 r2 r3 r4 r5 rest : List ℕ)
    → needed ≤ buf_size
    → b.ref_count < 2 ^ 32
    → from_bytes 8 r1 ≡ (b.block_id, r2)
    → from_bytes 8 r2 ≡ (b.size, r3)
    → from_bytes 8 r3 ≡ (b.compressed_size, r4)
    → from_bytes 1 r4 ≡ (b.compression, r5)
    → take 32 r5 ≡ b.hash
    → from_bytes 8 (drop 32 r5) ≡ (b.ref_count, rest)
    → block_metadata_deserialize r1 buf_size old ≡ some (filled old b)
unfolding block_metadata_deserialize
read_fields b old buf_size r1 r2 r3 r4 r5 rest room_h refs e1 e2 e3 e4 e5 e6 =
    let accepted : ltb buf_size needed ≡ false = ground arith in
    let small : b.ref_count % 2 ^ 32 ≡ b.ref_count = omega arith in
    rw (e1, e2, e3, e4, e5, e6, accepted, small) refl

take-hash : (hash more : List ℕ) → length hash ≡ 32 → take 32 (take 32 hash ++ more) ≡ hash
take-hash hash more h =
    let whole : take 32 hash ≡ hash = take-all hash 32 (omega (arith, h)) in
    ap (λ xs. take 32 (xs ++ more)) whole
    ∙ ap (λ n. take n (hash ++ more)) (sym h)
    ∙ take-append hash more

drop-hash : (hash more : List ℕ) → length hash ≡ 32 → drop 32 (take 32 hash ++ more) ≡ more
drop-hash hash more h =
    let whole : take 32 hash ≡ hash = take-all hash 32 (omega (arith, h)) in
    ap (λ xs. drop 32 (xs ++ more)) whole
    ∙ ap (λ n. drop n (hash ++ more)) (sym h)
    ∙ drop-append hash more

-- A block whose fields fit their widths is written as 65 bytes into every buffer of 57 bytes or more,
-- and the block read from the memory that starts with them has these fields, whatever follows.
pub block_metadata_deserialize-block_metadata_serialize :
    (b old : DataBlock) (buf_size : ℕ) (rest : List ℕ)
    → Fits b
    → 57 ≤ buf_size
    → (bytes : List ℕ) × ((block_metadata_serialize b buf_size ≡ some bytes)
        × ((length bytes ≡ 65)
            × (block_metadata_deserialize (bytes ++ rest) buf_size old ≡ some (filled old b))))
unfolding block_metadata_serialize fields to_bytes
block_metadata_deserialize-block_metadata_serialize b old buf_size rest f big =
    let accepted : ltb buf_size needed ≡ false = ground arith in
    let counts = to_bytes 8 b.ref_count ++ rest in
    let r5 = take 32 b.hash ++ counts in
    let r4 = to_bytes 1 b.compression ++ r5 in
    let r3 = to_bytes 8 b.compressed_size ++ r4 in
    let r2 = to_bytes 8 b.size ++ r3 in
    let r1 = to_bytes 8 b.block_id ++ r2 in
    let split : fields b ++ rest ≡ r1 =
      ap
        (λ m.
          to_bytes 8 b.block_id
          ++ to_bytes 8 b.size
          ++ to_bytes 8 b.compressed_size
          ++ to_bytes 1 b.compression
          ++ m)
        (append_assoc (take 32 b.hash) (to_bytes 8 b.ref_count) rest) in
    let refs : b.ref_count < room 8 = omega (arith, f.ref_count) in
    let last : from_bytes 8 (drop 32 r5) ≡ (b.ref_count, rest) =
      ap (from_bytes 8) (drop-hash b.hash counts f.hash)
      ∙ from_bytes-to_bytes 8 b.ref_count rest refs in
    (
      fields b,
      (
        rw accepted refl,
        (
          length-fields b f.hash,
          ap (λ m. block_metadata_deserialize m buf_size old) split
              ∙ read_fields b old buf_size r1 r2 r3 r4 r5 rest big f.ref_count
                  (from_bytes-to_bytes 8 b.block_id r2 f.block_id)
                  (from_bytes-to_bytes 8 b.size r3 f.size)
                  (from_bytes-to_bytes 8 b.compressed_size r4 f.compressed_size)
                  (from_bytes-to_bytes 1 b.compression r5 f.compression)
                  (take-hash b.hash counts f.hash) last,
        ),
      ),
    )
