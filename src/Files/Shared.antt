-- ===== src/Files/Shared.antt =====
-- The parts of a write to a block that other files share, with deduplication and compression off.
use smartbackup_fs.Base.{
  none, true, if◌then◌else◌, ℕ, ◌+◌, ◌≤◌, ◌≡◌, ◌≢◌, refl, ap, ◌∙◌, Bool, false, ◌&&◌, not, Option,
  some, List, set, leb, ◌==◌, arith,
}
use smartbackup_fs.Block.{DataBlock, plain_bytes}
use smartbackup_fs.Block.Heap.{Heap, write, alloc}
use smartbackup_fs.Cache.Level1.{l1_put, l1_block_size}
use smartbackup_fs.Cache.{MultiCache, cache_put_block, put_lower}
use smartbackup_fs.Dedup.Config.{Load}
use smartbackup_fs.Dedup.Index.{
  Libraries, Blocks, heap_of, with_heap, write_to, with_block, dedup_core_dec_ref,
  dedup_release_block, block_compute_hash, is_hashable, copy_of, move_slot, copy_on_write,
}
use smartbackup_fs.Dedup.{
  mark_plain, process_own, process_hashed, compress_slot, compress_if, deduplicate_if,
}
use smartbackup_fs.Files.{OpenFile, settle_slot, with_cache, cache_to, pair_file, index_block}

module _ (h : Heap) (a : ℕ) (b : DataBlock) where
  pub write-own : (write a b h).cells a ≡ some b
  write-own = ground arith

  pub write-other : (c : ℕ) → c ≢ a → (write a b h).cells c ≡ h.cells c
  write-other c ne = ground arith

module _ (lib : Libraries) (now addr : ℕ) (b : DataBlock) (s : Blocks) (plain : List ℕ)
    (live : (heap_of s).cells addr ≡ some b) (old : addr ≢ (heap_of s).next)
    (shared : 2 ≤ b.ref_count) (bytes : plain_bytes lib.decompress (some b) ≡ some plain) where
  -- the state with the private copy
  abbrev pub copied : Blocks
  copied = record (with_heap (alloc (copy_of lib b plain s.total_blocks) (heap_of s)).1 s) {
    total_blocks = s.total_blocks + 1;
    used_blocks = s.used_blocks + 1;
  }

  abbrev pub released : Blocks
  released = write_to addr (dedup_core_dec_ref b) copied

  copied-live : (heap_of copied).cells addr ≡ some b
  copied-live =
      let h = (heap_of s) in
      write-other h h.next (copy_of lib b plain s.total_blocks) addr old ∙ live

  pub copied-new :
      (heap_of released).cells (heap_of s).next ≡ some (copy_of lib b plain s.total_blocks)
  copied-new = ground (arith, old)

  many : leb b.ref_count 1 ≡ false
  many = ground (arith, shared)

  release-shared : dedup_release_block now addr copied ≡ some released
  unfolding dedup_release_block with_block
  release-shared = rw (copied-live, dedup_release_block, with_block, many) refl

  -- A shared block is copied, and loses a reference.
  pub copy_on_write-shared : copy_on_write now lib addr s ≡ some ((heap_of s).next, released)
  unfolding copy_on_write with_block
  copy_on_write-shared =
      rw (live, copy_on_write, with_block, many, bytes)
        (ap (move_slot (heap_of s).next) release-shared)

pub with_block-some {ℓ} :
    {A : Type ℓ} {o : Option DataBlock} {b : DataBlock} (f : DataBlock → Option A)
    → o ≡ some b
    → with_block o f ≡ f b
unfolding with_block
with_block-some f e = ap (λ o. with_block o f) e

module _ (lib : Libraries) (load : Load) (now : ℕ) (own : ℕ) (c : DataBlock) (s : Blocks)
    (live : (heap_of s).cells own ≡ some c) (no_dedup : s.dedup_config.enable_deduplication ≡ false)
    (no_compression : s.dedup_config.enable_compression ≡ false) where
  abbrev pub hashed : Blocks
  hashed = write_to own (block_compute_hash lib c) s

  abbrev pub processed : Blocks
  processed = write_to own (mark_plain (block_compute_hash lib c)) hashed

  compress_slot-off : compress_slot lib load now own hashed ≡ some (own, processed)
  compress_slot-off =
      let b = block_compute_hash lib c in
      with_block-some _ (write-own (heap_of s) own b)
      ∙ ap (λ on. compress_if lib load now on own b hashed) no_compression

  pub process_own-off :
      is_hashable c ≡ true → process_own lib load now own s ≡ some (own, processed)
  process_own-off full =
      let b = block_compute_hash lib c in
      with_block-some _ live
      ∙ ap (λ t. if t then process_hashed lib load now own b s else none) full
      ∙ ap (λ on. deduplicate_if lib load now on own b.hash hashed) no_dedup
      ∙ compress_slot-off

module _ (lib : Libraries) (load : Load) (block_size now : ℕ) (opened : Bool) (junk : List ℕ)
    (i own : ℕ) (c : DataBlock) (f : OpenFile) (s : Blocks) (live : (heap_of s).cells own ≡ some c)
    (single : s.cache.l2.enabled ≡ false) where
  abbrev pub cached : MultiCache
  cached = record s.cache { l1 = l1_put c.block_id (l1_block_size c) own now s.cache.l1 }

  pub cache_put_block-single : cache_put_block now opened lib.decompress own s.cache ≡ some cached
  unfolding cache_put_block
  cache_put_block-single =
      let off : (s.cache.l2.enabled && not (s.cache.l2.slots == 0)) ≡ false =
        ap (λ on. on && not (s.cache.l2.slots == 0)) single in
      rw (live, cache_put_block)
        (ap (λ on. put_lower now opened lib.decompress own c.block_id on cached) off)

  abbrev pub settled : OpenFile
  settled = record f {
    slots = set f.slots i (some own);
    block_index = index_block c.block_id own now f.block_index;
  }

  pub settle_slot-single :
      settle_slot lib load block_size now opened junk i own f s
      ≡ some (settled, with_cache cached s)
  settle_slot-single =
      with_block-some _ live ∙ ap (λ o. pair_file settled (cache_to s o)) cache_put_block-single
