-- ===== src/Cache/Faults.antt =====
-- A lookup that finds a block in the second level only.
use smartbackup_fs.Base.{
  ℕ, ◌%◌, ◌<◌, ◌≡◌, refl, ap, ◌∙◌, Bool, true, false, none, some, get_or, ltb, ◌==◌, ◌&&◌, not,
  arith,
}
use smartbackup_fs.HashTable.{hash_table_get, hash_table_remove}
use smartbackup_fs.HashTable.Buckets.{IsValid, view}
use smartbackup_fs.HashTable.Laws.{hash_table_get-Models}
use smartbackup_fs.Block.{DataBlock, Decompressor}
use smartbackup_fs.Block.Heap.{Heap}
use smartbackup_fs.Cache.Level1.{l1_put, l1_block_size}
use smartbackup_fs.Cache.Level2.{L2Cache, l2_find, free_slot, l2_displace}
use smartbackup_fs.Cache.{
  MultiCache, count_hit, fill_slot, put_lower, cache_put_block, promote, take_hit, get_lower,
  cache_get_block,
}

-- the second level holds the block `b` of the id at the address `a`, in another slot than 0
pub record IsStored (id a : ℕ) (b : DataBlock) (c : L2Cache) (h : Heap) : Type 0 where
  pub on : c.enabled ≡ true
  pub slot : 0 < id % c.slots
  pub inside : id % c.slots < c.slots
  pub valid : IsValid c.index
  pub indexed : view c.index id ≡ some (id % c.slots)
  pub owner : get_or c.slot_ids (id % c.slots) 0 ≡ id
  pub block : get_or c.slot_blocks (id % c.slots) none ≡ some a
  pub live : h.cells a ≡ some b
  pub own : b.block_id ≡ id

stored_id : {id a : ℕ} {b : DataBlock} {c : L2Cache} {h : Heap} → IsStored id a b c h → 0 < id
stored_id v = ground (arith, v.slot, v.inside)

l2_find-stored :
    (id a now : ℕ) (b : DataBlock) (c : L2Cache) (h : Heap)
    → IsStored id a b c h
    → (l2_find id now c).0 ≡ some a
unfolding l2_find
l2_find-stored id a now b c h v =
    let found : (hash_table_get c.index id now).0 ≡ some (id % c.slots) =
      (hash_table_get-Models v.valid id now).0 ∙ v.indexed in
    let here : (ltb (id % c.slots) c.slots && (get_or c.slot_ids (id % c.slots) 0 == id)) ≡ true =
      ground (arith, v.inside, v.owner) in
    rw (found, l2_find, here) v.block

l2_find-keeps :
    (id a now : ℕ) (b : DataBlock) (c : L2Cache) (h : Heap)
    → IsStored id a b c h
    → IsStored id a b (l2_find id now c).1 h
unfolding l2_find
l2_find-keeps id a now b c h v =
    let g = (hash_table_get-Models v.valid id now).1 in
    record {
      on = v.on;
      slot = v.slot;
      inside = v.inside;
      valid = g.valid;
      indexed = g.reads id ∙ v.indexed;
      owner = v.owner;
      block = v.block;
      live = v.live;
      own = v.own;
    }

-- displacing the slot's own block frees it
displace-frees :
    (id a : ℕ) (b : DataBlock) (c : L2Cache) (h : Heap)
    → IsStored id a b c h
    → ((l2_displace (id % c.slots) c h).1).cells a ≡ none
displace-frees id a b c h v =
    let full : (get_or c.slot_ids (id % c.slots) 0 == 0) ≡ false =
      ground (arith, v.owner, stored_id v) in
    let t = (hash_table_remove c.index (get_or c.slot_ids (id % c.slots) 0)).1 in
    let held = v.block in
    let gone : (free_slot (id % c.slots) (record c { index = t }) h).1.cells a ≡ none =
      rw (held, free_slot) (ground arith) in
    rw (full, l2_displace) gone

module _ (now : ℕ) (opened : Bool) (codec : Decompressor) where
  -- the block is read again once it is freed
  lower-faults :
      (id a : ℕ) (b : DataBlock) (s : MultiCache)
      → IsStored id a b s.l2 s.heap
      → put_lower now opened codec a id true s ≡ none
  lower-faults id a b s v =
      let gone = displace-frees id a b s.l2 s.heap v in rw (gone, put_lower, fill_slot) refl

  put-faults :
      (id a : ℕ) (b : DataBlock) (s : MultiCache)
      → IsStored id a b s.l2 s.heap
      → cache_put_block now opened codec a s ≡ none
  unfolding cache_put_block
  put-faults id a b s v =
      let s' = record s { l1 = l1_put b.block_id (l1_block_size b) a now s.l1 } in
      let slots : (s.l2.slots == 0) ≡ false = ground (arith, v.inside) in
      let on : (s.l2.enabled && not (s.l2.slots == 0)) ≡ true = rw (v.on, slots) refl in
      rw (v.live, cache_put_block)
        (ap (λ k. put_lower now opened codec a k (s.l2.enabled && not (s.l2.slots == 0)) s') v.own
          ∙ ap (λ k. put_lower now opened codec a id k s') on
          ∙ lower-faults id a b s' v)

  -- a block that only the second level holds is freed by its own lookup
  pub get-faults :
      (id a : ℕ) (b : DataBlock) (s : MultiCache)
      → IsValid s.l1.table
      → view s.l1.table id ≡ none
      → IsStored id a b s.l2 s.heap
      → cache_get_block now opened codec id s ≡ none
  unfolding cache_get_block
  get-faults id a b s v1 lacks v =
      let missed : (hash_table_get s.l1.table id now).0 ≡ none =
        (hash_table_get-Models v1 id now).0 ∙ lacks in
      let s1 =
        count_hit 1 false
          (record s { l1 = record s.l1 { table = (hash_table_get s.l1.table id now).1 } }) in
      let s2 = record s1 { l2 = (l2_find id now s.l2).1 } in
      let hit = l2_find-stored id a now b s.l2 s.heap v in
      let faults : cache_put_block now opened codec a (count_hit 2 true s2) ≡ none =
        put-faults id a b (count_hit 2 true s2) (l2_find-keeps id a now b s.l2 s.heap v) in
      rw (missed, cache_get_block)
        (ap (λ on. get_lower now opened codec id on s1) v.on
          ∙ ap (λ r. take_hit now opened codec id r s2) hit
          ∙ rw (faults, promote) refl)
