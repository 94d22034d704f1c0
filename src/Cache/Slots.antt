-- ===== src/Cache/Slots.antt =====
-- The slot of the second level that a block which is put gets.
use smartbackup_fs.Base.{
  ℕ, ◌%◌, ◌<◌, ◌≡◌, ◌≢◌, refl, sym, ap, ◌∙◌, true, none, some, List, get_or, set, length,
  length-set, get_or-set_self, ◌==◌, if◌then◌else◌, inl, inr, Bool-cases, Option-cases, arith,
}
use mathlib.Core.Path.{subst}
use smartbackup_fs.HashTable.{Table, hash_table_set, hash_table_remove}
use smartbackup_fs.HashTable.Buckets.{IsValid, view}
use smartbackup_fs.HashTable.Laws.{hash_table_set-Models, hash_table_remove-Models}
use smartbackup_fs.Block.{DataBlock, Decompressor, is_compressed}
use smartbackup_fs.Block.Heap.{Heap, alloc}
use smartbackup_fs.Block.Io.{source_bytes}
use smartbackup_fs.Cache.Level2.{
  L2Cache, slot_ptr, l2_alloc_block, overwrite, copy_size, l2_copy_into_slot, copy_bytes, free_slot,
  l2_displace, l2_claim, l2_publish,
}
use smartbackup_fs.Cache.Faults.{IsStored}

-- A live block at `addr`, for a slot of the second level other than 0, whose old copy is another block.
pub record IsPuttable (addr : ℕ) (b : DataBlock) (c : L2Cache) (h : Heap) : Type 0 where
  pub on : c.enabled ≡ true
  pub slot : 0 < b.block_id % c.slots
  pub inside : b.block_id % c.slots < c.slots
  pub valid : IsValid c.index
  pub ids : length c.slot_ids ≡ c.slots
  pub blocks : length c.slot_blocks ≡ c.slots
  pub live : h.cells addr ≡ some b
  pub old : addr ≢ h.next
  pub apart : get_or c.slot_blocks (b.block_id % c.slots) none ≢ some addr
  pub bare :
      get_or c.slot_ids (b.block_id % c.slots) 0 ≡ 0
      → get_or c.slot_blocks (b.block_id % c.slots) none ≡ none

-- the same once the slot is empty
pub record IsCleared (addr : ℕ) (b : DataBlock) (slots : ℕ) (c : L2Cache) (h : Heap) : Type 0 where
  pub on : c.enabled ≡ true
  pub same_slots : c.slots ≡ slots
  pub valid : IsValid c.index
  pub ids : length c.slot_ids ≡ slots
  pub blocks : length c.slot_blocks ≡ slots
  pub live : h.cells addr ≡ some b
  pub old : addr ≢ h.next
  pub free : get_or c.slot_blocks (b.block_id % slots) none ≡ none

free_slot-Cleared :
    (addr : ℕ) (b : DataBlock) (c : L2Cache) (t : Table ℕ) (h : Heap)
    → IsPuttable addr b c h
    → IsValid t
    → let (c', h') = free_slot (b.block_id % c.slots) (record c { index = t }) h in
      IsCleared addr b c.slots c' h'
free_slot-Cleared addr b c t h v valid =
    let slot = b.block_id % c.slots in
    elim (Option-cases (get_or c.slot_blocks slot none)) [
      | inl e ↦
          rw (e, free_slot)
            (record {
              on = v.on;
              same_slots = refl;
              valid = valid;
              ids = v.ids;
              blocks = v.blocks;
              live = v.live;
              old = v.old;
              free = e;
            })
      | inr (a, e) ↦
          (let ne : addr ≢ a = λ same. v.apart (e ∙ ap some (sym same)) in
            rw (e, free_slot)
              (record {
                on = v.on;
                same_slots = refl;
                valid = valid;
                ids = v.ids;
                blocks = length-set c.slot_blocks slot none ∙ v.blocks;
                live = ground (arith, v.live);
                old = v.old;
                free =
                    get_or-set_self c.slot_blocks slot none none
                      (omega (arith, v.inside, v.blocks));
              }))
    ]

pub displace-Cleared :
    (addr : ℕ) (b : DataBlock) (c : L2Cache) (h : Heap)
    → IsPuttable addr b c h
    → let (c', h') = l2_displace (b.block_id % c.slots) c h in IsCleared addr b c.slots c' h'
displace-Cleared addr b c h v =
    let slot = b.block_id % c.slots in
    let old_id = get_or c.slot_ids slot 0 in
    elim (Bool-cases (old_id == 0)) [
      | inl bare ↦
          rw (bare, l2_displace)
            (record {
              on = v.on;
              same_slots = refl;
              valid = v.valid;
              ids = v.ids;
              blocks = v.blocks;
              live = v.live;
              old = v.old;
              free = v.bare (ground arith);
            })
      | inr full ↦
          (let m = (hash_table_remove-Models v.valid old_id).1 in
            rw (full, l2_displace)
              (free_slot-Cleared addr b c (hash_table_remove c.index old_id).1 h v m.valid))
    ]

-- the copy that the slot gets
abbrev pub slot_copy : DataBlock → List ℕ → ℕ → DataBlock
slot_copy b src slot_size =
    overwrite (l2_alloc_block b.block_id slot_size) src
      (copy_size (if is_compressed b then length src else b.size) slot_size)

module _ (codec : Decompressor) (addr now : ℕ) (b : DataBlock) (src : List ℕ) (slots : ℕ)
    (c : L2Cache) (h : Heap) (v : IsCleared addr b slots c h)
    (from : source_bytes codec b ≡ some src) (some_slot : 0 < b.block_id % slots)
    (inside : b.block_id % slots < slots) where
  -- the level and the memory after the copy
  abbrev pub copied : L2Cache × Heap
  copied =
      let claimed = l2_claim (b.block_id % slots) b.block_id c in
      (
        record claimed { slot_blocks = set c.slot_blocks (b.block_id % slots) (some h.next) },
        (alloc (slot_copy b src c.slot_size) h).1,
      )

  pub copy-fills :
      l2_copy_into_slot codec (b.block_id % slots) b (l2_claim (b.block_id % slots) b.block_id c) h
      ≡ some copied
  unfolding l2_copy_into_slot
  copy-fills = rw (from, l2_copy_into_slot, v.free, copy_bytes) refl

  pub copy-live : (copied.1).cells addr ≡ some b
  copy-live = ground (arith, v.live, v.old)

  pub copy-Stored :
      IsStored b.block_id h.next
        (slot_copy b src c.slot_size)
        (l2_publish (b.block_id % slots) b.block_id now copied.0)
        copied.1
  copy-Stored =
      let slot = b.block_id % slots in
      let ptr : slot_ptr slot ≡ some slot = ground arith in
      let m = (hash_table_set-Models v.valid b.block_id slot now).1 in
      let t = (hash_table_set c.index b.block_id (slot_ptr slot) now true).1 in
      let made : t ≡ (hash_table_set c.index b.block_id (some slot) now true).1 =
        ap (λ p. (hash_table_set c.index b.block_id p now true).1) ptr in
      let held : view t b.block_id ≡ some slot =
        ap (λ u. view u b.block_id) made ∙ ground (arith, m.reads b.block_id) in
      let own : get_or (set c.slot_ids slot b.block_id) slot 0 ≡ b.block_id =
        get_or-set_self c.slot_ids slot b.block_id 0 (omega (arith, v.ids, inside)) in
      let block : get_or (set c.slot_blocks slot (some h.next)) slot none ≡ some h.next =
        get_or-set_self c.slot_blocks slot (some h.next) none (omega (arith, v.blocks, inside)) in
      let same : b.block_id % c.slots ≡ slot = ap (λ n. b.block_id % n) v.same_slots in
      record {
        on = v.on;
        slot = omega (arith, some_slot, same);
        inside = omega (arith, inside, same, v.same_slots);
        valid = subst (λ u. IsValid u) (sym made) m.valid;
        indexed = held ∙ ap some (sym same);
        owner = ap (λ i. get_or (set c.slot_ids slot b.block_id) i 0) same ∙ own;
        block = ap (λ i. get_or (set c.slot_blocks slot (some h.next)) i none) same ∙ block;
        live = ground arith;
        own = refl;
      }
