-- ===== src/Integrity/Laws.antt =====
-- What the integrity checks find.
use smartbackup_fs.Base.{
  ℕ, zero, suc, ◌+◌, ◌≤◌, ◌<◌, none, length, leb, ◌≡◌, refl, ap, ◌∙◌, Bool, true, false, some, List,
  ◌++◌, drop, take, ◌==◌, success, arith,
}
use smartbackup_fs.Block.{DataBlock}
use smartbackup_fs.Block.Io.{bytes_of}
use smartbackup_fs.Wal.Header.{to_bytes, from_bytes}
use smartbackup_fs.Integrity.{
  Monitor, checksum_of, verdict, calculate_block_checksum, dedup_core_calculate_hash,
  verify_block_integrity, first_bytes, count_verdict, md_verify_block_integrity, count_unverified,
  md_write_with_verification, scan_blocks, verify_if,
}

-- the block with the hash of its bytes
abbrev pub rehashed : (List ℕ → List ℕ) → DataBlock → DataBlock
rehashed sha256 b = record b { hash = sha256 (take b.size (bytes_of b)) }

-- that a block's buffer has as many bytes as its size says
abbrev pub IsFull : DataBlock → List ℕ → Type 0
IsFull b bytes = (b.buffer ≡ some bytes) × (b.size ≤ length bytes)

module _ (sha256 : List ℕ → List ℕ) where
  hash-full :
      (b : DataBlock) (bytes : List ℕ)
      → IsFull b bytes
      → dedup_core_calculate_hash sha256 b
        ≡ some (sha256 (take b.size (bytes_of b)), rehashed sha256 b)
  hash-full b bytes (e, full) =
      let held : bytes_of b ≡ bytes = rw e refl in
      let enough : leb b.size (length (bytes_of b)) ≡ true = ground (arith, ap length held) in
      rw enough refl

  -- a block whose buffer is too short for its size
  hash-short :
      (b : DataBlock) (bytes : List ℕ)
      → b.buffer ≡ some bytes
      → length bytes < b.size
      → verify_block_integrity sha256 b ≡ none
  unfolding verify_block_integrity calculate_block_checksum
  hash-short b bytes e short =
      let held : bytes_of b ≡ bytes = rw e refl in
      let over : leb b.size (length (bytes_of b)) ≡ false = ground (arith, ap length held) in
      let none_yet : dedup_core_calculate_hash sha256 b ≡ none = rw over refl in
      ap (λ o. verdict sha256 (checksum_of sha256 o b)) e
      ∙ ap (λ h. verdict sha256 (first_bytes sha256 h)) none_yet

  verify-success :
      (b : DataBlock) (bytes : List ℕ)
      → IsFull b bytes
      → verify_block_integrity sha256 b ≡ some (success, rehashed sha256 b)
  unfolding verify_block_integrity calculate_block_checksum
  verify-success b bytes full =
      let hash = sha256 (take b.size (bytes_of b)) in
      let same : ((from_bytes 4 hash).0 == (from_bytes 4 hash).0) ≡ true = ground arith in
      ap (λ o. verdict sha256 (checksum_of sha256 o b)) full.0
      ∙ ap (λ h. verdict sha256 (first_bytes sha256 h)) (hash-full b bytes full)
      ∙ rw same refl

  md_verify-success :
      (now : ℕ) (b : DataBlock) (bytes : List ℕ) (m : Monitor)
      → IsFull b bytes
      → md_verify_block_integrity sha256 now b m ≡ some (success, rehashed sha256 b, m)
  unfolding md_verify_block_integrity
  md_verify-success now b bytes m full =
      ap (count_verdict sha256 now m) (verify-success b bytes full)

  scan-finds :
      (now : ℕ) (get_block_by_id : ℕ → DataBlock) (bytes : ℕ → List ℕ) (n id found : ℕ)
      (m : Monitor)
      → ((q : ℕ) → IsFull (get_block_by_id q) (bytes q))
      → scan_blocks sha256 get_block_by_id now n id found m ≡ some (found, m)
  unfolding scan_blocks
  scan-finds now get_block_by_id bytes zero id found m h = refl
  scan-finds now get_block_by_id bytes (suc n) id found m h =
      let good = md_verify-success now (get_block_by_id id) (bytes id) m (h id) in
      rw (good, scan_blocks) (scan-finds now get_block_by_id bytes n (id + 1) found m h)

  verify_if-success :
      (on : Bool) (now : ℕ) (b : DataBlock) (bytes : List ℕ) (m : Monitor)
      → IsFull b bytes
      → (b' : DataBlock) × ((verify_if sha256 on now b m ≡ some (success, b', m))
          × (b'.buffer ≡ some bytes))
  verify_if-success false now b bytes m full = (b, (refl, full.0))
  verify_if-success true now b bytes m full = (
    rehashed sha256 b,
    (ap (count_unverified sha256 now) (md_verify-success now b bytes m full), full.0),
  )

  write-success :
      (new_checksum size now : ℕ) (b : DataBlock) (bytes : List ℕ) (m : Monitor)
      → b.buffer ≡ some bytes
      → 0 < size
      → size ≤ length bytes
      → (b' : DataBlock) × ((md_write_with_verification sha256 new_checksum size now b m
            ≡ some (success, b', m))
          × (b'.buffer ≡ some bytes))
  unfolding md_write_with_verification
  write-success new_checksum size now b bytes m e h fits =
      let some_bytes : (size == 0) ≡ false = ground arith in
      let b' = record b { size = size; hash = to_bytes 4 new_checksum ++ drop 4 b.hash } in
      rw some_bytes (verify_if-success m.enable_write_verification now b' bytes m (e, fits))

  -- a verified write of more bytes than the buffer has
  write-short :
      (new_checksum size now : ℕ) (b : DataBlock) (bytes : List ℕ) (m : Monitor)
      → b.buffer ≡ some bytes
      → m.enable_write_verification ≡ true
      → length bytes < size
      → md_write_with_verification sha256 new_checksum size now b m ≡ none
  unfolding md_write_with_verification md_verify_block_integrity
  write-short new_checksum size now b bytes m e on short =
      let some_bytes : (size == 0) ≡ false = ground arith in
      let b' = record b { size = size; hash = to_bytes 4 new_checksum ++ drop 4 b.hash } in
      rw some_bytes (
        ap (λ k. verify_if sha256 k now b' m) on
        ∙ ap (λ r. count_unverified sha256 now (count_verdict sha256 now m r))
            (hash-short b' bytes e short))

-- Corruption is never detected. Whatever hash a block stores, whose buffer has as many bytes as its size says,
-- its check succeeds and replaces the stored hash by the current one; so a scan of any number of such
-- blocks finds none and reports nothing. A write of as many bytes as the buffer of a block has, or fewer
-- but at least one, whether verified or not, succeeds and reports nothing, while the block's data stays what it was.
-- A verified write of more bytes than the buffer has reads past its end and has no result.
pub verify_block_integrity_blind :
    (sha256 : List ℕ → List ℕ) (now : ℕ) (get_block_by_id : ℕ → DataBlock) (bytes : ℕ → List ℕ)
    (new_checksum size larger id n : ℕ) (m : Monitor)
    → ((q : ℕ) → IsFull (get_block_by_id q) (bytes q))
    → 0 < size
    → size ≤ length (bytes id)
    → length (bytes id) < larger
    → let b = get_block_by_id id in
      (verify_block_integrity sha256 b
        ≡ some (success, record b { hash = sha256 (take b.size (bytes id)) }))
      × (scan_blocks sha256 get_block_by_id now n id 0 m ≡ some (0, m))
      × ((b' : DataBlock) × ((md_write_with_verification sha256 new_checksum size now b m
              ≡ some (success, b', m))
            × (b'.buffer ≡ some (bytes id))))
      × (md_write_with_verification sha256 new_checksum larger now b
            (record m { enable_write_verification = true })
          ≡ none)
verify_block_integrity_blind sha256 now get_block_by_id bytes new_checksum size larger id n m h
      some_bytes fits over =
    let b = get_block_by_id id in
    let full = h id in
    let held : bytes_of b ≡ bytes id = rw (full.0) refl in
    (
      verify-success sha256 b (bytes id) full
          ∙ ap (λ xs. some (success, record b { hash = sha256 (take b.size xs) })) held,
      scan-finds sha256 now get_block_by_id bytes n id 0 m h,
      write-success sha256 new_checksum size now b (bytes id) m full.0 some_bytes fits,
      write-short sha256 new_checksum larger now b (bytes id)
          (record m { enable_write_verification = true }) full.0 refl over,
    )
