-- ===== src/Files/Hits.antt =====
-- One slot's read in smart_read_file of src/module_a/metadata_manager.c, when the first level of the
-- cache knows the block.
use smartbackup_fs.Base.{ℕ, ◌≡◌, refl, ap, ◌∙◌, Bool, true, false, none, some, List, [], inr}
use smartbackup_fs.HashTable.{hash_table_get}
use smartbackup_fs.HashTable.Buckets.{IsValid, view}
use smartbackup_fs.HashTable.Laws.{hash_table_get-Models}
use smartbackup_fs.Block.{DataBlock}
use smartbackup_fs.Block.Io.{read_block}
use smartbackup_fs.Cache.{MultiCache, count_hit, cache_get_block}
use smartbackup_fs.Dedup.Config.{normal}
use smartbackup_fs.Dedup.Index.{Libraries, Blocks, heap_of}
use smartbackup_fs.Files.{OpenFile, with_cache, cache_to, put_in_cache}
use smartbackup_fs.Files.Read.{after_lookup, after_read, give_bytes, prefetch_after, read_slot}
use smartbackup_fs.Files.Shared.{with_block-some, cached, cache_put_block-single}

module _ (lib : Libraries) (block_size now : ℕ) (opened : Bool) (addr n offset : ℕ) (b : DataBlock)
    (bytes : List ℕ) (s : Blocks) (live : (heap_of s).cells addr ≡ some b)
    (valid : IsValid s.cache.l1.table) (known : view s.cache.l1.table b.block_id ≡ some addr)
    (single : s.cache.l2.enabled ≡ false)
    (reads : read_block lib.decompress b n offset ≡ inr bytes) where
  abbrev blank_file : OpenFile
  blank_file = record {
    ino = 0;
    is_regular = true;
    size = 0;
    blocks = 0;
    atime = 0;
    mtime = 0;
    slots = [];
    block_index = none;
  }

  -- the cache after the lookup
  abbrev looked_up : MultiCache
  looked_up = count_hit 1 true (record s.cache {
    l1 = record s.cache.l1 { table = (hash_table_get s.cache.l1.table b.block_id now).1 };
  })

  hit : cache_get_block now opened lib.decompress b.block_id s.cache ≡ some (some addr, looked_up)
  unfolding cache_get_block
  hit =
      let found : (hash_table_get s.cache.l1.table b.block_id now).0 ≡ some addr =
        (hash_table_get-Models valid b.block_id now).0 ∙ known in
      rw (found, cache_get_block) refl

  put_known : (s' : Blocks) × (put_in_cache now opened lib addr (with_cache looked_up s) ≡ some s')
  put_known = (
    with_cache
        (cached lib normal block_size now opened [] 0 addr b blank_file (with_cache looked_up s)
          live single)
        (with_cache looked_up s),
    ap (cache_to (with_cache looked_up s)) (
        cache_put_block-single lib normal block_size now opened [] 0 addr b blank_file
          (with_cache looked_up s) live single),
  )

  pub read_slot-hit :
      (s' : Blocks) × (read_slot lib block_size now opened n offset none addr s
        ≡ some (inr bytes, s'))
  read_slot-hit =
      let (s', put) = put_known in
      (
        s',
        with_block-some _ live
            ∙ ap (after_lookup lib block_size now opened n offset none addr s) hit
            ∙ with_block-some _ live
            ∙ ap (after_read lib block_size now opened none addr (with_cache looked_up s)) reads
            ∙ ap
                (λ o.
                  give_bytes lib block_size now opened bytes
                    (prefetch_after lib block_size now opened none o))
                put,
      )
