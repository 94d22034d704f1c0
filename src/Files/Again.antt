-- ===== src/Files/Again.antt =====
-- A write into a file without blocks, and the read after it: smart_write_file and smart_read_file of
-- src/module_a/metadata_manager.c.
use smartbackup_fs.Base.{
  ℕ, zero, suc, ◌+◌, ◌-◌, ◌/◌, ◌%◌, ◌≤◌, ◌<◌, ◌≡◌, refl, ap, ◌∙◌, Bool, true, false, Option, none,
  some, List, [], length, ltb, leb, if◌then◌else◌, inr, arith,
}
use native.Mathlib.Nat.{zero-add, div-eq_of_lt, mod-eq_of_lt}
use smartbackup_fs.Block.{DataBlock, is_compressed}
use smartbackup_fs.Block.Io.{put_bytes, with_bytes, take-put_bytes, read_block}
use smartbackup_fs.Cache.Level1.{l1_block_size}
use smartbackup_fs.Cache.Level1.Laws.{IsTracked}
use smartbackup_fs.Cache.Level1.Put.{l1_put-IsTracked}
use smartbackup_fs.Dedup.Config.{Load}
use smartbackup_fs.Dedup.Index.{Libraries, Blocks}
use smartbackup_fs.Files.{OpenFile, block_part, smart_write_file}
use smartbackup_fs.Files.Read.{
  FileResult, count_bytes, read_slot, read_at, read_round, read_rounds, finish_read,
  smart_read_file,
}
use smartbackup_fs.Files.Rounds.{read_inside, buffer-hashed, size-hashed}
use smartbackup_fs.Files.Fresh.{
  address, bytes, stored, packed-live, written, final_state, written_file, write-fresh,
}
use smartbackup_fs.Files.Hits.{read_slot-hit}

module _ (lib : Libraries) (block_size now : ℕ) (opened : Bool) (slots : List (Option ℕ))
    (offset : ℕ) (s s' : Blocks) where
  reads-none :
      (n at done : ℕ) (buf : List ℕ)
      → read_rounds lib block_size now opened n 0 at done buf slots s' ≡ some (inr (done, buf), s')
  unfolding read_rounds
  reads-none zero at done buf = refl
  reads-none (suc n) at done buf = refl

  -- one round that reads everything
  reads-one :
      (k : ℕ) (buf bytes : List ℕ)
      → 0 < k
      → block_part block_size offset k ≡ k
      → read_round lib block_size now opened offset k slots s ≡ some (inr (k, bytes), s')
      → read_rounds lib block_size now opened k k offset 0 buf slots s
        ≡ some (inr (k, put_bytes buf 0 bytes), s')
  unfolding read_rounds
  reads-one zero buf bytes h part e = absurd (omega arith)
  reads-one (suc k) buf bytes h part e =
      let buf' = put_bytes buf 0 bytes in
      let left : suc k - block_part block_size offset (suc k) ≡ 0 = omega (arith, part) in
      rw (e, read_rounds)
        (ap
            (λ l.
              read_rounds lib block_size now opened k l
                (offset + block_part block_size offset (suc k)) (0 + suc k) buf' slots s')
            left
          ∙ reads-none k (offset + block_part block_size offset (suc k)) (0 + suc k) buf'
          ∙ ap (λ d. some (inr (d, buf'), s')) (zero-add (suc k)))

module _ (lib : Libraries) (load : Load) (block_size now later : ℕ) (opened : Bool)
    (junk buf rbuf : List ℕ) (offset : ℕ) (f : OpenFile) (s : Blocks)
    (sized : length junk ≡ block_size) (room : offset + length buf ≤ block_size)
    (some_bytes : 0 < length buf) (no_dedup : s.dedup_config.enable_deduplication ≡ false)
    (no_compression : s.dedup_config.enable_compression ≡ false)
    (single : s.cache.l2.enabled ≡ false) (tracked : IsTracked s.cache.l1) where
  abbrev block : DataBlock
  block =
      stored lib load block_size now opened junk buf offset f s sized room some_bytes no_dedup
        no_compression single

  abbrev place : ℕ
  place =
      address lib load block_size now opened junk buf offset f s sized room some_bytes no_dedup
        no_compression single

  abbrev after : Blocks
  after =
      final_state lib load block_size now opened junk buf offset f s sized room some_bytes no_dedup
        no_compression single

  abbrev file : OpenFile
  file =
      written_file lib load block_size now opened junk buf offset f s sized room some_bytes no_dedup
        no_compression single

  block-reads : read_block lib.decompress block (length buf) offset ≡ inr buf
  unfolding with_bytes is_compressed
  block-reads =
      let old =
        written lib load block_size now opened junk buf offset f s sized room some_bytes no_dedup
          no_compression single in
      let held : block.buffer ≡ some (put_bytes junk offset buf) = buffer-hashed lib old in
      let wide : block.size ≡ block_size = size-hashed lib old ∙ sized in
      read_inside lib.decompress block (put_bytes junk offset buf) (length buf) offset held refl
        (omega (arith, wide, room, some_bytes)) (omega (arith, wide, room))
      ∙ ap inr (take-put_bytes junk buf offset (omega (arith, sized, room)))

  slot-reads :
      (s' : Blocks) × (read_slot lib block_size later opened (length buf) offset none place after
        ≡ some (inr buf, s'))
  slot-reads =
      let put =
        l1_put-IsTracked block.block_id (l1_block_size block) place now s.cache.l1 tracked in
      read_slot-hit lib block_size later opened place (length buf) offset block buf after
        (packed-live lib load block_size now opened junk buf offset f s sized room some_bytes
          no_dedup no_compression single)
        put.0.valid put.1 single block-reads

  slots-read :
      (s' : Blocks) × (read_rounds lib block_size later opened
          (length buf)
          (length buf)
          offset
          0
          rbuf
          file.slots
          after
        ≡ some (inr (length buf, put_bytes rbuf 0 buf), s'))
  unfolding read_round
  slots-read =
      let (s', e) = slot-reads in
      let inside : offset < block_size = omega (arith, room, some_bytes) in
      let first : offset / block_size ≡ 0 = div-eq_of_lt inside in
      let rest : offset % block_size ≡ offset = mod-eq_of_lt inside in
      let part : block_part block_size offset (length buf) ≡ length buf = ground (arith, rest) in
      let at = read_at lib block_size later opened in
      (
        s',
        reads-one lib block_size later opened file.slots offset after s' (length buf) rbuf buf
            some_bytes part
            (ap
                (λ i.
                  at i (block_part block_size offset (length buf)) (offset % block_size) file.slots
                    after)
                first
              ∙ ap (λ n. at 0 n (offset % block_size) file.slots after) part
              ∙ ap (λ o. at 0 (length buf) o file.slots after) rest
              ∙ ap (count_bytes lib block_size later opened) e),
      )

  file-reads :
      (s' : Blocks) × (smart_read_file lib block_size later opened file rbuf
          (length buf)
          offset
          after
        ≡ some (inr (length buf, put_bytes rbuf 0 buf), record file { atime = later }, s'))
  unfolding smart_read_file
  file-reads =
      let (s', e) = slots-read in
      let long : offset + length buf ≤ file.size = ground arith in
      let remaining = file.size - offset in
      let wanted = if ltb remaining (length buf) then remaining else length buf in
      let all : wanted ≡ length buf = ground (arith, long) in
      let within : leb file.size offset ≡ false = ground (arith, long, some_bytes) in
      let finish = finish_read lib block_size later opened file in
      let body : Option (FileResult × OpenFile × Blocks) =
        finish
          (read_rounds lib block_size later opened wanted wanted offset 0 rbuf file.slots after) in
      let at_end : Option (FileResult × OpenFile × Blocks) = some (inr (0, rbuf), file, after) in
      (
        s',
        ap (λ t. if t then at_end else body) within
            ∙ ap
                (λ w.
                  finish
                    (read_rounds lib block_size later opened w w offset 0 rbuf file.slots after))
                all
            ∙ ap finish e,
      )

-- With deduplication, compression and the second cache level off, a write that stays in the first block of a
-- regular file without blocks succeeds, takes every byte of the buffer, and leaves a file and a state such that
-- a later read of as many bytes at the same offset succeeds and gives those bytes: the caller's buffer starts
-- with them, and is otherwise as before. The write is not empty, the memory of a new block has the block's size,
-- and the first cache level's table and list agree.
pub smart_read_file-smart_write_file :
    (lib : Libraries) (load : Load) (block_size now later : ℕ) (opened : Bool)
    (junk buf rbuf : List ℕ) (offset : ℕ) (f : OpenFile) (s : Blocks)
    → f.is_regular ≡ true
    → f.slots ≡ []
    → length junk ≡ block_size
    → offset + length buf ≤ block_size
    → 0 < length buf
    → s.dedup_config.enable_deduplication ≡ false
    → s.dedup_config.enable_compression ≡ false
    → s.cache.l2.enabled ≡ false
    → IsTracked s.cache.l1
    → (f' : OpenFile) × ((t : Blocks) × ((t' : Blocks) × ((smart_write_file lib load block_size now
                opened junk f buf offset s
              ≡ some (inr (length buf), f', t))
            × (smart_read_file lib block_size later opened f' rbuf (length buf) offset t
                ≡ some (inr (length buf, put_bytes rbuf 0 buf), record f' { atime = later }, t')))))
smart_read_file-smart_write_file lib load block_size now later opened junk buf rbuf offset f s
      regular none_yet sized room some_bytes no_dedup no_compression single tracked =
    let same : f ≡ record f { is_regular = true; slots = [] } =
      ap (λ l. record f { slots = l }) none_yet
      ∙ ap (λ r. record f { is_regular = r; slots = [] }) regular in
    let (t', e) =
      file-reads lib load block_size now later opened junk buf rbuf offset f s sized room some_bytes
        no_dedup no_compression single tracked in
    let written_to =
      write-fresh lib load block_size now opened junk buf offset f s sized room some_bytes no_dedup
        no_compression single in
    let g =
      file lib load block_size now later opened junk buf rbuf offset f s sized room some_bytes
        no_dedup no_compression single tracked in
    let t =
      after lib load block_size now later opened junk buf rbuf offset f s sized room some_bytes
        no_dedup no_compression single tracked in
    (
      g,
      (
        t,
        (
          t',
          (
            ap (λ h. smart_write_file lib load block_size now opened junk h buf offset s) same
                ∙ written_to,
            e,
          ),
        ),
      ),
    )
