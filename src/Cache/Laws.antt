-- ===== src/Cache/Laws.antt =====
-- What an invalidation and a lookup come to across the three levels.
use smartbackup_fs.Base.{
  ℕ, ◌≡◌, refl, sym, ap, ◌∙◌, Bool, true, false, Option, none, some, get_or, set, ◌⊎◌, inl, inr,
  Option-cases, arith,
}
use smartbackup_fs.HashTable.{hash_table_get, hash_table_remove}
use smartbackup_fs.HashTable.Buckets.{IsValid, view}
use smartbackup_fs.HashTable.Laws.{hash_table_get-Models, hash_table_remove-Models}
use smartbackup_fs.Block.{Decompressor}
use smartbackup_fs.Block.Heap.{Heap}
use smartbackup_fs.Cache.Level1.{l1_invalidate}
use smartbackup_fs.Cache.Level1.Laws.{IsTracked}
use smartbackup_fs.Cache.Level1.Put.{l1_invalidate-IsTracked}
use smartbackup_fs.Cache.Level2.{L2Cache, l2_find, l2_invalidate, free_slot}
use smartbackup_fs.Cache.Level3.{L3Cache, l3_remove_entry, l3_cache_get, absent}
use smartbackup_fs.Cache.{
  MultiCache, on_l3, count_hit, get_l3, get_lower, cache_get_block, cache_invalidate_block,
  take_hit, invalidate_lower,
}

-- the third level, if its index is there
abbrev pub L3Valid : Option L3Cache → Type 0
L3Valid none = Unit
L3Valid (some c) = IsValid c.index

-- What the operations ask of the cache's tables.
pub record IsSound (s : MultiCache) : Type 0 where
  pub tracked : IsTracked s.l1
  pub indexed : IsValid s.l2.index
  pub filed : L3Valid s.l3

-- an id that the second level's index does not hold
l2_find-none :
    (id now : ℕ) (c : L2Cache)
    → IsValid c.index
    → view c.index id ≡ none
    → (l2_find id now c).0 ≡ none
unfolding l2_find
l2_find-none id now c v h =
    let missed : (hash_table_get c.index id now).0 ≡ none =
      (hash_table_get-Models v id now).0 ∙ h in
    rw (missed, l2_find) refl

free_slot-index : (slot : ℕ) (c : L2Cache) (h : Heap) → ((free_slot slot c h).0).index ≡ c.index
free_slot-index slot c h = elim (Option-cases (get_or c.slot_blocks slot none)) [
  | inl e ↦ rw (e, free_slot) refl
  | inr (a, e) ↦ rw (e, free_slot) refl
]

l2_invalidate-gone :
    (id now : ℕ) (c : L2Cache) (h : Heap)
    → IsValid c.index
    → let c' = (l2_invalidate id now c h).0 in IsValid c'.index × (view c'.index id ≡ none)
unfolding l2_invalidate
l2_invalidate-gone id now c h v =
    let (found, g) = hash_table_get-Models v id now in
    let t = (hash_table_get c.index id now).1 in
    let m = (hash_table_remove-Models g.valid id).1 in
    let gone : view (hash_table_remove t id).1 id ≡ none = ground (arith, m.reads id) in
    elim (Option-cases (hash_table_get c.index id now).0) [
      | inl e ↦ rw (e, l2_invalidate) (g.valid, g.reads id ∙ sym found ∙ e)
      | inr (slot, e) ↦
          (let emptied = record c {
            index = (hash_table_remove t id).1;
            slot_ids = set c.slot_ids slot 0;
          } in
            let same = free_slot-index slot emptied h in
            rw (e, l2_invalidate, same) (m.valid, gone))
    ]

l3_remove_entry-gone :
    (id now : ℕ) (c : L3Cache)
    → IsValid c.index
    → let c' = l3_remove_entry id now c in IsValid c'.index × (view c'.index id ≡ none)
unfolding l3_remove_entry
l3_remove_entry-gone id now c v =
    let (found, g) = hash_table_get-Models v id now in
    let t = (hash_table_get c.index id now).1 in
    let m = (hash_table_remove-Models g.valid id).1 in
    let gone : view (hash_table_remove t id).1 id ≡ none = ground (arith, m.reads id) in
    elim (Option-cases (hash_table_get c.index id now).0) [
      | inl e ↦ rw (e, l3_remove_entry) (g.valid, g.reads id ∙ sym found ∙ e)
      | inr (x, e) ↦ rw (e, l3_remove_entry) (m.valid, gone)
    ]

-- the third level holds nothing under an id
abbrev pub L3Lacks : ℕ → Option L3Cache → Type 0
L3Lacks id none = Unit
L3Lacks id (some c) = IsValid c.index × (view c.index id ≡ none)

-- no level that is consulted holds the id
pub record IsMissing (id : ℕ) (s : MultiCache) : Type 0 where
  pub l1_valid : IsValid s.l1.table
  pub l1_lacks : view s.l1.table id ≡ none
  pub below :
      (s.l2.enabled ≡ false) ⊎ (IsValid s.l2.index × (view s.l2.index id ≡ none) × L3Lacks id s.l3)

-- that a lookup finds nothing, and does not fail
abbrev pub FindsNothing : Option (Option ℕ × MultiCache) → Type 0
FindsNothing r = (s : MultiCache) × (r ≡ some (none, s))

module _ (now : ℕ) (opened : Bool) (codec : Decompressor) (id : ℕ) where
  get_l3-misses :
      (c : Option L3Cache) (s : MultiCache)
      → L3Lacks id c
      → FindsNothing (get_l3 now opened codec id c s)
  unfolding l3_cache_get
  get_l3-misses none s h = (s, refl)
  get_l3-misses (some c) s (v, lacks) =
      let missed : (hash_table_get c.index id now).0 ≡ none =
        (hash_table_get-Models v id now).0 ∙ lacks in
      let c' = record c { index = (hash_table_get c.index id now).1 } in
      let unheld : l3_cache_get id now c ≡ (absent, c') = rw (missed, l3_cache_get) refl in
      (count_hit 3 false (record s { l3 = some c' }), rw unheld refl)

  get_lower-misses :
      (on : Bool) (s : MultiCache)
      → (on ≡ false) ⊎ (IsValid s.l2.index × (view s.l2.index id ≡ none) × L3Lacks id s.l3)
      → FindsNothing (get_lower now opened codec id on s)
  get_lower-misses false s h = (s, refl)
  get_lower-misses true s (inl off) = absurd (cc)
  get_lower-misses true s (inr (v, lacks, third)) =
      let missed : (l2_find id now s.l2).0 ≡ none = l2_find-none id now s.l2 v lacks in
      let s' = record s { l2 = (l2_find id now s.l2).1 } in
      let (end, e) = get_l3-misses s.l3 (count_hit 2 false s') third in
      (end, ap (λ hit. take_hit now opened codec id hit s') missed ∙ e)

  get-misses :
      (s : MultiCache) → IsMissing id s → FindsNothing (cache_get_block now opened codec id s)
  unfolding cache_get_block
  get-misses s h =
      let missed : (hash_table_get s.l1.table id now).0 ≡ none =
        (hash_table_get-Models h.l1_valid id now).0 ∙ h.l1_lacks in
      let s' =
        count_hit 1 false
          (record s { l1 = record s.l1 { table = (hash_table_get s.l1.table id now).1 } }) in
      let (end, e) = get_lower-misses s.l2.enabled s' h.below in
      (end, rw (missed, cache_get_block) e)

L3Valid-removed :
    (id now : ℕ) (c : Option L3Cache) → L3Valid c → L3Lacks id (on_l3 (l3_remove_entry id now) c)
L3Valid-removed id now none v = tt
L3Valid-removed id now (some c) v = l3_remove_entry-gone id now c v

lower-IsMissing :
    (id now : ℕ) (on : Bool) (s : MultiCache)
    → on ≡ s.l2.enabled
    → IsValid s.l1.table × (view s.l1.table id ≡ none)
    → IsValid s.l2.index
    → L3Valid s.l3
    → IsMissing id (invalidate_lower id now on s)
lower-IsMissing id now false s off (valid, gone) v2 v3 = record {
  l1_valid = valid;
  l1_lacks = gone;
  below = inl (sym off);
}
lower-IsMissing id now true s on (valid, gone) v2 v3 =
    let (valid2, lacks) = l2_invalidate-gone id now s.l2 s.heap v2 in
    record {
      l1_valid = valid;
      l1_lacks = gone;
      below = inr (valid2, lacks, L3Valid-removed id now s.l3 v3);
    }

invalidate-IsMissing :
    (id now : ℕ) (s : MultiCache) → IsSound s → IsMissing id (cache_invalidate_block id now s)
unfolding cache_invalidate_block
invalidate-IsMissing id now s v =
    let (tracked, gone, _) = l1_invalidate-IsTracked id s.l1 v.tracked in
    lower-IsMissing id now s.l2.enabled (record s { l1 = l1_invalidate id s.l1 }) refl
      (tracked.valid, gone) v.indexed v.filed

-- In a cache whose tables are valid, no level that a lookup consults holds an id that was invalidated any
-- more: the table of the first level does not, nor do the indexes of the other two, unless the second
-- level is off. So a later lookup finds nothing, and does not fail.
pub cache_get_block-cache_invalidate_block :
    (codec : Decompressor) (id now later : ℕ) (opened : Bool) (s : MultiCache)
    → IsSound s
    → IsMissing id (cache_invalidate_block id now s)
      × FindsNothing (cache_get_block later opened codec id (cache_invalidate_block id now s))
cache_get_block-cache_invalidate_block codec id now later opened s v =
    let missing = invalidate-IsMissing id now s v in
    (missing, get-misses later opened codec id (cache_invalidate_block id now s) missing)
