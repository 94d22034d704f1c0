-- ===== src/Files/Laws.antt =====
-- A write to a block that other files share.
use smartbackup_fs.Base.{
  ℕ, ◌+◌, ◌-◌, ◌≤◌, ◌<◌, ◌≡◌, ◌≢◌, refl, sym, ap, ◌∙◌, Bool, false, Option, none, some, List,
  length, take, get_or, get_or-set_self, ◌⊎◌, inr, Status, arith,
}
use mathlib.Core.Option.{some-injective}
use smartbackup_fs.Block.{DataBlock, Decompressor, is_compressed, plain_bytes, block_decompress}
use smartbackup_fs.Block.Heap.{write}
use smartbackup_fs.Block.Io.{
  put_bytes, with_bytes, read_block, write_plain, read_plain, take-put_bytes,
  is_compressed-with_bytes,
}
use smartbackup_fs.Dedup.Config.{Load}
use smartbackup_fs.Dedup.Index.{
  Libraries, Blocks, heap_of, write_to, dedup_core_dec_ref, block_compute_hash, copy_of,
}
use smartbackup_fs.Dedup.{mark_plain, dedup_process_block_on_write}
use smartbackup_fs.Files.{OpenFile, write_slot, with_cache, settle, report_written, after_write}
use smartbackup_fs.Files.Rounds.{copy-hashable}
use smartbackup_fs.Files.Shared.{
  write-own, write-other, with_block-some, copied-new, copy_on_write-shared, released,
  process_own-off, processed, settle_slot-single, settled, cached,
}

plain_bytes-with_bytes :
    (codec : Decompressor) (b : DataBlock) (bytes : List ℕ)
    → is_compressed b ≡ false
    → plain_bytes codec (some (with_bytes b bytes)) ≡ some (take b.size bytes)
unfolding plain_bytes with_bytes
plain_bytes-with_bytes codec b bytes plain =
    let still = is_compressed-with_bytes b bytes ∙ plain in rw (still, plain_bytes) refl

read_block-dec_ref :
    (codec : Decompressor) (b : DataBlock) (size offset : ℕ)
    → read_block codec (dedup_core_dec_ref b) size offset ≡ read_block codec b size offset
unfolding read_block is_compressed block_decompress
read_block-dec_ref codec b size offset = refl

with_bytes-refs : (b : DataBlock) (bytes : List ℕ) → (with_bytes b bytes).ref_count ≡ b.ref_count
unfolding with_bytes
with_bytes-refs b bytes = refl

process-shared :
    (lib : Libraries) (load : Load) (now addr : ℕ) (b : DataBlock) (plain : List ℕ) (s : Blocks)
    (live : (heap_of s).cells addr ≡ some b) (old : addr ≢ (heap_of s).next)
    (shared : 2 ≤ b.ref_count) (bytes : plain_bytes lib.decompress (some b) ≡ some plain)
    → s.dedup_config.enable_deduplication ≡ false
    → s.dedup_config.enable_compression ≡ false
    → (own : ℕ) × ((s' : Blocks) × ((c : DataBlock) × ((dedup_process_block_on_write lib load now
                addr s
              ≡ some (own, s'))
            × ((own ≢ addr)
                × ((heap_of s').cells own ≡ some c)
                × ((heap_of s').cells addr ≡ some (dedup_core_dec_ref b))
                × (s'.cache.l2 ≡ s.cache.l2)))))
unfolding dedup_process_block_on_write
process-shared lib load now addr b plain s live old shared bytes no_dedup no_compression =
    let own = (heap_of s).next in
    let copy = copy_of lib b plain s.total_blocks in
    let s1 = released lib now addr b s plain live old shared bytes in
    let copies = copy_on_write-shared lib now addr b s plain live old shared bytes in
    let held = copied-new lib now addr b s plain live old shared bytes in
    let packed =
      process_own-off lib load now own copy s1 held no_dedup no_compression
        (copy-hashable lib b plain s.total_blocks) in
    let c = block_compute_hash lib copy in
    let h1 = heap_of s1 in
    let ne : addr ≢ own = old in
    let dropped : h1.cells addr ≡ some (dedup_core_dec_ref b) = ground arith in
    let kept : (write own (mark_plain c) (write own c h1)).cells addr
        ≡ some (dedup_core_dec_ref b) =
      write-other (write own c h1) own (mark_plain c) addr ne
      ∙ write-other h1 own c addr ne
      ∙ dropped in
    (
      own,
      (
        processed lib load now own copy s1 held no_dedup no_compression,
        (
          mark_plain c,
          (
            rw (copies, dedup_process_block_on_write) packed,
            (λ e. old (sym e), write-own (write own c h1) own (mark_plain c), kept, refl),
          ),
        ),
      ),
    )

-- What a write of `buf` into a shared block comes to: all bytes are counted, the block itself reads as
-- `buf` at the offset, with a reference less, and the file's slot holds another block.
pub record IsWrittenThrough (codec : Decompressor) (addr i : ℕ) (b : DataBlock) (buf : List ℕ)
    (offset : ℕ) (r : Option ((Status ⊎ ℕ) × OpenFile × Blocks)) : Type 0 where
  pub file : OpenFile
  pub state : Blocks
  pub block : DataBlock
  pub result : r ≡ some (inr (length buf), file, state)
  pub held : (heap_of state).cells addr ≡ some block
  pub references : block.ref_count ≡ b.ref_count - 1
  pub changed : read_block codec block (length buf) offset ≡ inr buf
  pub moved : get_or file.slots i none ≢ some addr

-- With deduplication and compression switched off, and one level of cache, a write to a plain block that
-- other files share changes the block that they hold: the bytes are written before the copy on write, so
-- only the writer gets a copy, and the shared block reads as the new bytes.
pub write_slot-shared :
    (lib : Libraries) (load : Load) (block_size now : ℕ) (opened : Bool) (junk : List ℕ)
    (i addr : ℕ) (b : DataBlock) (bytes buf : List ℕ) (offset : ℕ) (f : OpenFile) (s : Blocks)
    → (heap_of s).cells addr ≡ some b
    → addr ≢ (heap_of s).next
    → 2 ≤ b.ref_count
    → b.buffer ≡ some bytes
    → length bytes ≡ b.size
    → is_compressed b ≡ false
    → offset < b.size
    → offset + length buf ≤ b.size
    → i < length f.slots
    → s.dedup_config.enable_deduplication ≡ false
    → s.dedup_config.enable_compression ≡ false
    → s.cache.l2.enabled ≡ false
    → IsWrittenThrough lib.decompress addr i b buf offset
        (write_slot lib load block_size now opened junk i addr buf offset f s)
unfolding write_slot
write_slot-shared lib load block_size now opened junk i addr b bytes buf offset f s live old shared
      e sized plain inside room slot no_dedup no_compression single =
    let codec = lib.decompress in
    let new = put_bytes bytes offset buf in
    let nb = with_bytes b new in
    let written = write_plain codec b bytes buf offset e plain inside room in
    let s1 = write_to addr nb s in
    let live1 : (heap_of s1).cells addr ≡ some nb = write-own (heap_of s) addr nb in
    let plain1 = plain_bytes-with_bytes codec b new plain in
    let refs : 2 ≤ nb.ref_count = omega (arith, with_bytes-refs b new, shared) in
    let (own, (s2, (c, (ends, (ne, held, kept, same_l2))))) =
      process-shared lib load now addr nb (take b.size new) s1 live1 old refs plain1 no_dedup
        no_compression in
    let off : s2.cache.l2.enabled ≡ false = ap (λ l. l.enabled) same_l2 ∙ single in
    let settles = settle_slot-single lib load block_size now opened junk i own c f s2 held off in
    let file = settled lib load block_size now opened junk i own c f s2 held off in
    let slots : get_or file.slots i none ≡ some own =
      get_or-set_self f.slots i (some own) none slot in
    let old_bytes : offset ≤ length bytes = omega (arith, sized, inside) in
    record {
      file = file;
      state = with_cache (cached lib load block_size now opened junk i own c f s2 held off) s2;
      block = dedup_core_dec_ref nb;
      result =
          with_block-some _ live
          ∙ ap (after_write lib load block_size now opened junk i addr f s) written
          ∙ ap (settle lib load block_size now opened junk i (length buf) f) ends
          ∙ ap (report_written (length buf)) settles;
      held = kept;
      references = ap (λ n. n - 1) (with_bytes-refs b new);
      changed =
          read_block-dec_ref codec nb (length buf) offset
          ∙ read_plain codec b new (length buf) offset plain inside room
          ∙ ap inr (take-put_bytes bytes buf offset old_bytes);
      moved = λ e. ne (some-injective own addr (sym slots ∙ e));
    }
