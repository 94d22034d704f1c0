-- ===== src/Files/Fresh.antt =====
-- A write into the first block of a file without blocks (smart_write_file of
-- src/module_a/metadata_manager.c), step by step: the states it goes through.
use smartbackup_fs.Base.{
  ℕ, ◌+◌, ◌-◌, ◌/◌, ◌%◌, ◌≤◌, ◌<◌, ◌≡◌, refl, ap, ◌∙◌, Bool, true, false, none, some, List, [], ◌∷◌,
  length, take, take-all, ltb, if◌then◌else◌, inr, arith,
}
use native.Mathlib.Nat.{div-eq_of_lt, mod-eq_of_lt}
use smartbackup_fs.Block.{DataBlock, is_compressed}
use smartbackup_fs.Block.Heap.{alloc}
use smartbackup_fs.Block.Io.{put_bytes, with_bytes, write_plain}
use smartbackup_fs.Dedup.Config.{Load}
use smartbackup_fs.Dedup.Index.{
  is_hashable, Libraries, Blocks, heap_of, with_heap, write_to, with_block, block_compute_hash,
  copy_on_write,
}
use smartbackup_fs.Dedup.{mark_plain, dedup_process_block_on_write}
use smartbackup_fs.Files.{
  OpenFile, with_cache, block_part, new_block, index_block, take_slot, write_slot, write_round,
  finish_write, smart_write_file, settle, report_written, after_write,
}
use smartbackup_fs.Files.Rounds.{length-put_bytes, rounds-one}
use smartbackup_fs.Files.Shared.{
  write-own, with_block-some, process_own-off, processed, settle_slot-single, settled, cached,
}

module _ (lib : Libraries) (load : Load) (block_size now : ℕ) (opened : Bool) (junk buf : List ℕ)
    (offset : ℕ) (f : OpenFile) (s : Blocks) (sized : length junk ≡ block_size)
    (room : offset + length buf ≤ block_size) (some_bytes : 0 < length buf)
    (no_dedup : s.dedup_config.enable_deduplication ≡ false)
    (no_compression : s.dedup_config.enable_compression ≡ false)
    (single : s.cache.l2.enabled ≡ false) where
  abbrev pub fresh : DataBlock
  fresh = new_block lib load block_size now opened junk s.total_blocks f.ino 0

  abbrev pub address : ℕ
  address = (heap_of s).next

  -- the file, grown to the end of the write
  abbrev pub grown : OpenFile
  grown =
      let end = offset + length buf in
      record f { is_regular = true; slots = []; size = if ltb f.size end then end else f.size }

  abbrev pub opened_file : OpenFile
  opened_file = record grown {
    slots = some address ∷ [];
    block_index = index_block s.total_blocks address now f.block_index;
  }

  abbrev pub taken : Blocks
  taken = record (with_heap (alloc fresh (heap_of s)).1 s) {
    total_blocks = s.total_blocks + 1;
    used_blocks = s.used_blocks + 1;
  }

  pub take-fresh :
      take_slot lib load block_size now opened junk 0 grown s ≡ some (address, opened_file, taken)
  unfolding take_slot
  take-fresh = refl

  -- the block's bytes
  abbrev pub bytes : List ℕ
  bytes = put_bytes junk offset buf

  abbrev pub written : DataBlock
  written = with_bytes fresh bytes

  abbrev pub stored : DataBlock
  stored = mark_plain (block_compute_hash lib written)

  abbrev pub stored_state : Blocks
  stored_state = write_to address written taken

  pub live : (heap_of stored_state).cells address ≡ some written
  live = write-own (heap_of taken) address written

  fresh-plain : is_compressed fresh ≡ false
  unfolding is_compressed
  fresh-plain = refl

  process-fresh :
      dedup_process_block_on_write lib load now address stored_state
      ≡ some (
        address,
        processed lib load now address written stored_state live no_dedup no_compression,
      )
  unfolding dedup_process_block_on_write copy_on_write with_block with_bytes
  process-fresh =
      let long : length (put_bytes junk offset buf) ≡ length junk =
        length-put_bytes junk buf offset (omega (arith, sized, room)) in
      let full : is_hashable written ≡ true = ground (arith, long) in
      let own : copy_on_write now lib address stored_state ≡ some (address, stored_state) =
        rw (live, copy_on_write) refl in
      rw (own, dedup_process_block_on_write)
        (process_own-off lib load now address written stored_state live no_dedup no_compression
          full)

  abbrev pub packed : Blocks
  packed = processed lib load now address written stored_state live no_dedup no_compression

  pub packed-live : (heap_of packed).cells address ≡ some stored
  packed-live = ground arith

  abbrev pub final_file : OpenFile
  final_file =
      settled lib load block_size now opened junk 0 address stored opened_file packed packed-live
        single

  abbrev pub final_state : Blocks
  final_state =
      with_cache
        (cached lib load block_size now opened junk 0 address stored opened_file packed packed-live
          single)
        packed

  pub slot-fresh :
      write_slot lib load block_size now opened junk 0 address buf offset opened_file taken
      ≡ some (inr (length buf), final_file, final_state)
  unfolding write_slot
  slot-fresh =
      let inside : offset < fresh.size = omega (arith, sized, room, some_bytes) in
      let fits : offset + length buf ≤ fresh.size = omega (arith, sized, room) in
      let wrote = write_plain lib.decompress fresh junk buf offset refl fresh-plain inside fits in
      with_block-some _ (write-own (heap_of s) address fresh)
      ∙ ap (after_write lib load block_size now opened junk 0 address opened_file taken) wrote
      ∙ ap (settle lib load block_size now opened junk 0 (length buf) opened_file) process-fresh
      ∙ ap (report_written (length buf)) (
          settle_slot-single lib load block_size now opened junk 0 address stored opened_file packed
            packed-live single)

  round-fresh :
      write_round lib load block_size now opened junk buf offset grown s
      ≡ some (inr (length buf), final_file, final_state)
  unfolding take_slot
  round-fresh =
      let inside : offset < block_size = omega (arith, room, some_bytes) in
      let first : offset / block_size ≡ 0 = div-eq_of_lt inside in
      let rest : offset % block_size ≡ offset = mod-eq_of_lt inside in
      let part : block_part block_size offset (length buf) ≡ length buf = ground (arith, rest) in
      let whole : take (block_part block_size offset (length buf)) buf ≡ buf =
        take-all buf _ (omega (arith, part)) in
      ap
        (λ i. elim (take_slot lib load block_size now opened junk i grown s) [
          | none ↦ none
          | some (addr, f', s') ↦
              write_slot lib load block_size now opened junk i addr
                (take (block_part block_size offset (length buf)) buf) (offset % block_size) f' s'
        ])
        first
      ∙ ap
          (λ xs.
            write_slot lib load block_size now opened junk 0 address xs (offset % block_size)
              opened_file taken)
          whole
      ∙ ap (λ k. write_slot lib load block_size now opened junk 0 address buf k opened_file taken)
          rest
      ∙ slot-fresh

  -- the file after the write
  abbrev pub written_file : OpenFile
  written_file = record final_file {
    blocks = (final_file.size + block_size - 1) / block_size;
    mtime = now;
  }

  pub write-fresh :
      smart_write_file lib load block_size now opened junk
        (record f { is_regular = true; slots = [] })
        buf
        offset
        s
      ≡ some (inr (length buf), written_file, final_state)
  unfolding smart_write_file
  write-fresh = ap (finish_write lib load block_size now opened junk) (
      rounds-one lib load block_size now opened junk buf offset grown final_file s final_state
        some_bytes round-fresh)
