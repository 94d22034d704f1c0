-- ===== src/Cache/Level3/Laws.antt =====
-- What the third level keeps, and what it drops.
use smartbackup_fs.Base.{
  ℕ, ◌+◌, ◌-◌, ◌≤◌, ◌<◌, ◌≡◌, ◌≢◌, refl, sym, ap, ◌∙◌, true, false, some, List, take, length,
  take-all, length-take, none, leb, false, ◌==◌, ◌&&◌, not, ◌⊎◌, inl, inr, Bool-cases, arith,
}
use mathlib.Core.Option.{some-injective}
use smartbackup_fs.HashTable.{Table, hash_table_get, hash_table_set}
use smartbackup_fs.HashTable.Buckets.{view}
use smartbackup_fs.HashTable.Laws.{hash_table_get-Models, hash_table_set-Models}
use smartbackup_fs.Block.{DataBlock}
use smartbackup_fs.Block.Io.{bytes_of}
use smartbackup_fs.Cache.Level2.{l2_alloc_block}
use smartbackup_fs.Cache.Level3.{
  L3Entry, L3Cache, evict_rounds, l3_evict_if_needed, loaded, store_size, l3_cache_get,
  l3_cache_put, is_expired, index_file, put_l3_file, write_l3,
}
use smartbackup_fs.Cache.Level3.Eviction.{IsIndexed, IsEvicted, Forgets, evict_rounds-IsEvicted}

evict-IsEvicted :
    (incoming now : ℕ) (c : L3Cache)
    → IsIndexed c.index
    → let c' = l3_evict_if_needed incoming now c in
      (evict_rounds (c.index.count + 1) incoming now c ≡ some c') × IsEvicted incoming c c'
unfolding l3_evict_if_needed
evict-IsEvicted incoming now c v =
    let (c', (ends, rest)) =
      evict_rounds-IsEvicted (c.index.count + 1) incoming now c v (omega arith) in
    rw (ends, l3_evict_if_needed) (refl, rest)

-- In an index that holds every entry under its own id, the eviction ends after at most as many rounds as
-- there are entries. It changes neither the count of bytes nor a file; every id maps to what it did or
-- to nothing, and there is room for an entry more, unless the index is empty; it is, if the new block
-- did not fit into the bytes at the start.
pub l3_evict_if_needed-ends :
    (incoming now : ℕ) (c : L3Cache)
    → IsIndexed c.index
    → let c' = l3_evict_if_needed incoming now c in
      (evict_rounds (c.index.count + 1) incoming now c ≡ some c')
      × (c'.current_bytes ≡ c.current_bytes)
      × (c'.files ≡ c.files)
      × Forgets c.index c'.index
      × ((c'.index.count ≡ 0) ⊎ (c'.index.count < c.max_entries))
      × (c.capacity_bytes < c.current_bytes + incoming → c'.index.count ≡ 0)
l3_evict_if_needed-ends incoming now c v =
    let (ends, e) = evict-IsEvicted incoming now c v in
    let (capacity, entries, _, _) = e.same_bounds in
    (
      ends,
      e.same_bytes,
      e.same_files,
      e.forgets,
      elim e.done [ inl empty ↦ inl empty | inr enough ↦ inr (ground (arith, entries)) ],
      λ over. elim e.done [
        | inl empty ↦ empty
        | inr enough ↦ absurd (ground (arith, capacity, e.same_bytes))
      ],
    )

-- an entry put under its own id keeps the index in order
module _ (t : Table L3Entry) (v : IsIndexed t) (e : L3Entry) (now : ℕ) where
  set_entry :
      let t' = (hash_table_set t e.block_id (some e) now true).1 in
      IsIndexed t'
      × (view t' e.block_id ≡ some e)
      × ((q : ℕ) → q ≢ e.block_id → view t' q ≡ view t q)
  set_entry =
      let m = (hash_table_set-Models v.valid e.block_id e now).1 in
      let t' = (hash_table_set t e.block_id (some e) now true).1 in
      let own : view t' e.block_id ≡ some e = ground (arith, m.reads e.block_id) in
      let other : (q : ℕ) → q ≢ e.block_id → view t' q ≡ view t q =
        λ q ne. ground (arith, m.reads q) in
      let keyed : (q : ℕ) (x : L3Entry) → view t' q ≡ some x → x.block_id ≡ q = λ q x h.
        elim (Bool-cases (q == e.block_id)) [
          | inl here ↦
              (let same : q ≡ e.block_id = ground arith in
                let held : view t' q ≡ some e = ap (view t') same ∙ own in
                let twin : some e ≡ some x = sym held ∙ h in
                ap (λ k. k.block_id) (sym (some-injective e x twin)) ∙ sym same)
          | inr away ↦
              (let ne : q ≢ e.block_id = ground arith in v.keyed q x (sym (other q ne) ∙ h))
        ] in
      (record { valid = m.valid; keyed = keyed }, own, other)

-- A lookup leaves what an index holds.
get_entry :
    (t : Table L3Entry) (v : IsIndexed t) (id now : ℕ)
    → let (found, t') = hash_table_get t id now in
      (found ≡ view t id) × IsIndexed t' × ((q : ℕ) → view t' q ≡ view t q)
get_entry t v id now =
    let (found, g) = hash_table_get-Models v.valid id now in
    (found, record { valid = g.valid; keyed = λ q x h. v.keyed q x (sym (g.reads q) ∙ h) }, g.reads)

abbrev fresh_entry : ℕ → ℕ → ℕ → L3Entry
fresh_entry id size now = record { block_id = id; size = size; last_access = now }

-- what the level holds of a block after the put
pub record IsFiled (b : DataBlock) (now : ℕ) (c c' : L3Cache) : Type 0 where
  pub indexed : IsIndexed c'.index
  pub held : view c'.index b.block_id ≡ some (fresh_entry b.block_id (store_size b c) now)
  pub file : c'.files b.block_id ≡ some (take (store_size b c) (bytes_of b))
  pub same_slot : c'.slot_size ≡ c.slot_size
  pub same_expiry : c'.expire_seconds ≡ c.expire_seconds

pub put_block :
    (b : DataBlock) (now : ℕ) (c : L3Cache)
    → IsIndexed c.index
    → 0 < c.capacity_bytes
    → store_size b c ≤ length (bytes_of b)
    → (c' : L3Cache) × ((l3_cache_put b now true c ≡ some c') × IsFiled b now c c')
unfolding l3_cache_put
put_block b now c v h fits =
    let size = store_size b c in
    let roomy = l3_evict_if_needed size now c in
    let e = (evict-IsEvicted size now c v).1 in
    let (_, indexed, _) = get_entry roomy.index e.indexed b.block_id now in
    let (valid, own, _) = set_entry _ indexed (fresh_entry b.block_id size now) now in
    let capacity : (c.capacity_bytes == 0) ≡ false = ground arith in
    let (_, _, slot, expire) = e.same_bounds in
    let enough : leb size (length (bytes_of b)) ≡ true = ground arith in
    (
      index_file b.block_id size now (put_l3_file b.block_id (some (take size (bytes_of b))) roomy),
      (
        rw (capacity, enough, write_l3) refl,
        record {
          indexed = valid;
          held = own;
          file = ground arith;
          same_slot = slot;
          same_expiry = expire;
        },
      ),
    )

put-short :
    (b : DataBlock) (now : ℕ) (c : L3Cache)
    → 0 < c.capacity_bytes
    → length (bytes_of b) < store_size b c
    → l3_cache_put b now true c ≡ none
unfolding l3_cache_put
put-short b now c h short =
    let capacity : (c.capacity_bytes == 0) ≡ false = ground arith in
    let enough : leb (store_size b c) (length (bytes_of b)) ≡ false = ground arith in
    rw (capacity, enough, write_l3) refl

get_block :
    (id now : ℕ) (bytes : List ℕ) (e : L3Entry) (c : L3Cache)
    → IsIndexed c.index
    → view c.index id ≡ some e
    → c.files e.block_id ≡ some bytes
    → now - e.last_access ≤ c.expire_seconds
    → (l3_cache_get id now c).0
      ≡ loaded (record (l2_alloc_block e.block_id c.slot_size) {
        buffer = some (take c.slot_size bytes);
        size = length (take c.slot_size bytes);
      })
unfolding l3_cache_get
get_block id now bytes e c v held file fresh =
    let (found, _, _) = get_entry c.index v id now in
    let hit : (hash_table_get c.index id now).0 ≡ some e = found ∙ held in
    let young : (not (c.expire_seconds == 0) && is_expired c.expire_seconds now e) ≡ false =
      ground arith in
    rw (hit, l3_cache_get, young, file) refl

-- A block that is put into a third level with a capacity, whose file can be opened, comes back from it
-- until it expires, if its buffer holds the bytes that are stored: as a plain block of the same id with
-- exactly these, the first of the buffer, as many as the block's size and a slot's size allow. If
-- the buffer holds fewer, as that of a compressed block may, the put reads past its end and has no result.
pub l3_cache_get-l3_cache_put :
    (b : DataBlock) (now later : ℕ) (c : L3Cache)
    → IsIndexed c.index
    → 0 < c.capacity_bytes
    → later - now ≤ c.expire_seconds
    → let size = store_size b c in
      ((size ≤ length (bytes_of b))
        × ((c' : L3Cache) × ((l3_cache_put b now true c ≡ some c')
              × ((l3_cache_get b.block_id later c').0
                  ≡ loaded (record (l2_alloc_block b.block_id c.slot_size) {
                    buffer = some (take size (bytes_of b));
                    size = size;
                  })))))
      ⊎ ((length (bytes_of b) < size) × (l3_cache_put b now true c ≡ none))
l3_cache_get-l3_cache_put b now later c v room fresh =
    let size = store_size b c in
    let bytes = take size (bytes_of b) in
    elim (Bool-cases (leb size (length (bytes_of b)))) [
      | inr e ↦
          (let short : length (bytes_of b) < size = ground arith in
            inr (short, put-short b now c room short))
      | inl e ↦
          let enough : size ≤ length (bytes_of b) = ground arith in
          let (c', (ends, f)) = put_block b now c v room enough in
          let full : length bytes ≡ size = ground (arith, length-take size (bytes_of b)) in
          let short : length bytes ≤ c.slot_size = ground (arith, full) in
          let whole : take c'.slot_size bytes ≡ bytes =
            ap (λ n. take n bytes) f.same_slot ∙ take-all bytes c.slot_size short in
          let found =
            get_block b.block_id later bytes (fresh_entry b.block_id size now) c' f.indexed f.held
              f.file (omega (arith, f.same_expiry, fresh)) in
          inl (
            enough,
            (
              c',
              (
                ends,
                found
                    ∙ ap
                        (λ xs. loaded (record (l2_alloc_block b.block_id c'.slot_size) {
                          buffer = some xs;
                          size = length xs;
                        }))
                        whole
                    ∙ ap
                        (λ n. loaded (record (l2_alloc_block b.block_id c'.slot_size) {
                          buffer = some bytes;
                          size = n;
                        }))
                        full,
              ),
            ),
          )
    ]
