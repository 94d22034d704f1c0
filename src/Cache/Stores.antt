-- ===== src/Cache/Stores.antt =====
-- Puts across the three levels.
use smartbackup_fs.Base.{
  ℕ, ◌%◌, ◌<◌, ◌≡◌, refl, sym, ap, ◌∙◌, Bool, true, false, Option, none, some, List, get_or, ◌==◌,
  ◌&&◌, not, ◌≤◌, length, leb, ◌⊎◌, if◌then◌else◌, inl, inr, Bool-cases, arith,
}
use mathlib.Core.Path.{subst}
use smartbackup_fs.HashTable.Buckets.{view}
use smartbackup_fs.Block.{DataBlock, Decompressor}
use smartbackup_fs.Block.Heap.{Heap}
use smartbackup_fs.Block.Io.{source_bytes, bytes_of}
use smartbackup_fs.Cache.Level1.{L1Cache, l1_put, l1_block_size}
use smartbackup_fs.Cache.Level1.Laws.{IsTracked}
use smartbackup_fs.Cache.Level1.Put.{l1_put-IsTracked, l1_invalidate-IsTracked}
use smartbackup_fs.Cache.Level2.{L2Cache, l2_displace, l2_publish}
use smartbackup_fs.Cache.Level3.{L3Cache, l3_cache_put, l3_remove_entry, store_size, write_l3}
use smartbackup_fs.Cache.{
  MultiCache, on_l3, cache_stats_set_usage, cache_stats_set_dirty, take_l3, put_l3, fill_slot,
  put_lower, cache_put_block, cache_get_block, cache_invalidate_block_level,
}
use smartbackup_fs.Cache.Faults.{IsStored, get-faults}
use smartbackup_fs.Cache.Slots.{
  IsPuttable, IsCleared, displace-Cleared, slot_copy, copied, copy-fills, copy-live, copy-Stored,
}

-- what a put leaves below the first level
record IsPut (id : ℕ) (l1 : L1Cache) (s : MultiCache) : Type 0 where
  address : ℕ
  copy : DataBlock
  same_l1 : s.l1 ≡ l1
  stored : IsStored id address copy s.l2 s.heap

module _ (now : ℕ) (opened : Bool) (b : DataBlock) where
  -- that the third level, if it is there, does not read past the block's buffer
  abbrev Storable : Option L3Cache → Type 0
  Storable o = (o ≡ none) ⊎ (b.size ≤ length (bytes_of b))

  on_l3-Storable : (f : L3Cache → L3Cache) (o : Option L3Cache) → Storable o → Storable (on_l3 f o)
  on_l3-Storable f o (inl e) = inl (ap (on_l3 f) e)
  on_l3-Storable f o (inr long) = inr long

  l3_cache_put-some :
      (c : L3Cache)
      → b.size ≤ length (bytes_of b)
      → (c' : L3Cache) × (l3_cache_put b now opened c ≡ some c')
  unfolding l3_cache_put
  l3_cache_put-some c long =
      let size = store_size b c in
      let enough : leb size (length (bytes_of b)) ≡ true = ground arith in
      elim (Bool-cases (c.capacity_bytes == 0)) [
        | inl e ↦ rw e (c, refl)
        | inr e ↦ elim (Bool-cases opened) [
          | inl on ↦ rw (e, on, enough, write_l3) (_, refl)
          | inr off ↦ rw (e, off) (_, refl)
        ]
      ]

  put_l3-some :
      (o : Option L3Cache) (s : MultiCache)
      → Storable o
      → (s' : MultiCache) × ((put_l3 now opened (some b) o s ≡ some s')
          × ((s'.l1 ≡ s.l1) × (s'.l2 ≡ s.l2) × (s'.heap ≡ s.heap)))
  put_l3-some none s h = (s, (refl, (refl, refl, refl)))
  put_l3-some (some c) s (inl e) = absurd (cc)
  put_l3-some (some c) s (inr long) =
      let (c', e) = l3_cache_put-some c long in
      let s1 = record s { l3 = some c' } in
      let writes = opened && not (c.capacity_bytes == 0) in
      let taken = ap (λ o. take_l3 now opened writes o s) e in
      elim (Bool-cases writes) [
        | inl counts ↦ (
          cache_stats_set_usage s1,
          (taken ∙ ap (λ w. take_l3 now opened w (some c') s) counts, (refl, refl, refl)),
        )
        | inr plain ↦
            (s1, (taken ∙ ap (λ w. take_l3 now opened w (some c') s) plain, (refl, refl, refl)))
      ]

  module _ (codec : Decompressor) (addr : ℕ) (src : List ℕ) (slots : ℕ) (c : L2Cache) (h : Heap)
      (v : IsCleared addr b slots c h) (from : source_bytes codec b ≡ some src)
      (some_slot : 0 < b.block_id % slots) (inside : b.block_id % slots < slots) where
    fill-IsPut :
        (s : MultiCache)
        → Storable s.l3
        → (s' : MultiCache) × ((fill_slot now opened codec addr (b.block_id % slots) c h s
              ≡ some s')
            × IsPut b.block_id s.l1 s')
    fill-IsPut s storable =
        let made = copied codec addr now b src slots c h v from some_slot inside in
        let fills = copy-fills codec addr now b src slots c h v from some_slot inside in
        let live = copy-live codec addr now b src slots c h v from some_slot inside in
        let stored = copy-Stored codec addr now b src slots c h v from some_slot inside in
        let s1 = cache_stats_set_usage (
          cache_stats_set_dirty (record s {
            l2 = l2_publish (b.block_id % slots) b.block_id now made.0;
            heap = made.1;
          })) in
        let (s', (ends, (l1, l2, heap))) = put_l3-some s.l3 s1 storable in
        (
          s',
          (
            rw (v.live, fill_slot, fills) (ap (λ o. put_l3 now opened o s.l3 s1) live ∙ ends),
            record {
              address = h.next;
              copy = slot_copy b src c.slot_size;
              same_l1 = l1;
              stored =
                  subst (λ u. IsStored b.block_id h.next (slot_copy b src c.slot_size) u s'.heap)
                    (sym l2)
                    (subst (λ m. IsStored b.block_id h.next (slot_copy b src c.slot_size) s1.l2 m)
                      (sym heap) stored);
            },
          ),
        )

  cache_put_block-IsPut :
      (codec : Decompressor) (addr : ℕ) (src : List ℕ) (s : MultiCache)
      → IsPuttable addr b s.l2 s.heap
      → source_bytes codec b ≡ some src
      → Storable s.l3
      → (s' : MultiCache) × ((cache_put_block now opened codec addr s ≡ some s')
          × IsPut b.block_id (l1_put b.block_id (l1_block_size b) addr now s.l1) s')
  unfolding cache_put_block
  cache_put_block-IsPut codec addr src s v from storable =
      let s1 = record s { l1 = l1_put b.block_id (l1_block_size b) addr now s.l1 } in
      let slot = b.block_id % s.l2.slots in
      let old_id = get_or s.l2.slot_ids slot 0 in
      let s2 = record s1 {
        l3 = if old_id == 0 then s.l3 else on_l3 (l3_remove_entry old_id now) s.l3;
      } in
      let below : Storable s2.l3 = elim (Bool-cases (old_id == 0)) [
        | inl e ↦ rw e storable
        | inr e ↦ rw e (on_l3-Storable (l3_remove_entry old_id now) s.l3 storable)
      ] in
      let (c, h) = l2_displace slot s.l2 s.heap in
      let cleared = displace-Cleared addr b s.l2 s.heap v in
      let slots : (s.l2.slots == 0) ≡ false = ground (arith, v.inside) in
      let on : (s.l2.enabled && not (s.l2.slots == 0)) ≡ true = rw (v.on, slots) refl in
      let (s', (ends, made)) =
        fill-IsPut codec addr src s.l2.slots c h cleared from v.slot v.inside s2 below in
      (
        s',
        (
          rw (v.live, cache_put_block)
              (ap (λ k. put_lower now opened codec addr b.block_id k s1) on ∙ ends),
          made,
        ),
      )

-- A block that is put, in a slot other than 0, is found in the first level as long as it stays there, if
-- there is no third level or its buffer holds as many bytes as its size says. Once it has left that level, the lookup that finds its copy in the second level reads that copy after
-- freeing it: it has no result.
pub cache_get_block-stored :
    (codec : Decompressor) (now later : ℕ) (opened reopened : Bool) (addr : ℕ) (b : DataBlock)
    (src : List ℕ) (s : MultiCache)
    → IsTracked s.l1
    → IsPuttable addr b s.l2 s.heap
    → source_bytes codec b ≡ some src
    → (s.l3 ≡ none) ⊎ (b.size ≤ length (bytes_of b))
    → (s' : MultiCache) × ((cache_put_block now opened codec addr s ≡ some s')
        × ((view s'.l1.table b.block_id ≡ some addr)
            × (cache_get_block later reopened codec b.block_id
                  (cache_invalidate_block_level b.block_id 1 later s')
                ≡ none)))
unfolding cache_invalidate_block_level
cache_get_block-stored codec now later opened reopened addr b src s tracked v from storable =
    let id = b.block_id in
    let (kept, found, _, _) = l1_put-IsTracked id (l1_block_size b) addr now s.l1 tracked in
    let (s', (ends, made)) = cache_put_block-IsPut now opened b codec addr src s v from storable in
    let tracked' : IsTracked s'.l1 = subst IsTracked (sym made.same_l1) kept in
    let (left, gone, _) = l1_invalidate-IsTracked id s'.l1 tracked' in
    (
      s',
      (
        ends,
        (
          ap (λ l. view l.table id) made.same_l1 ∙ found,
          get-faults later reopened codec id made.address made.copy
              (cache_invalidate_block_level id 1 later s') left.valid gone made.stored,
        ),
      ),
    )
