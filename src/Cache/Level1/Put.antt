-- ===== src/Cache/Level1/Put.antt =====
-- Puts and invalidations in the first level.
use smartbackup_fs.Base.{
  ℕ, ◌+◌, ◌≤◌, ◌≡◌, ◌≢◌, refl, sym, ap, ◌∙◌, true, false, none, some, List, [], ◌∷◌, ◌++◌, ◌==◌,
  if◌then◌else◌, ◌⊎◌, inl, inr, Bool-cases, Option-cases, arith,
}
use mathlib.Core.Path.{subst}
use smartbackup_fs.HashTable.{Table, hash_table_set, hash_table_remove}
use smartbackup_fs.HashTable.Buckets.{view}
use smartbackup_fs.HashTable.Laws.{hash_table_set-Models, hash_table_remove-Models}
use smartbackup_fs.Cache.Level1.{
  L1Entry, L1Cache, find_l1, drop_l1, l1_remove_entry, l1_track_insert, l1_evict_until_fit, l1_put,
  l1_invalidate,
}
use smartbackup_fs.Cache.Level1.Laws.{
  total_size, has_entry, is_some, Distinct, IsTracked, IsTrackedBut, IsEvicted, IsFront,
  evict-IsFront, find_l1-has, drop_l1-lacks, remove_entry-But, evict-IsEvicted,
}

module _ (e : L1Entry) where
  has_entry-append :
      (q : ℕ) (es : List L1Entry)
      → has_entry q (es ++ (e ∷ [])) ≡ (if e.block_id == q then true else has_entry q es)
  unfolding has_entry
  has_entry-append q [] = refl
  has_entry-append q (x ∷ es) = ground (arith, has_entry-append q es)

  total_size-append : (es : List L1Entry) → total_size (es ++ (e ∷ [])) ≡ total_size es + e.size
  unfolding total_size
  total_size-append [] = omega arith
  total_size-append (x ∷ es) = omega (arith, total_size-append es)

  Distinct-append :
      (es : List L1Entry)
      → Distinct es
      → has_entry e.block_id es ≡ false
      → Distinct (es ++ (e ∷ []))
  unfolding Distinct has_entry
  Distinct-append [] d h = (refl, tt)
  Distinct-append (x ∷ es) d h =
      let rest : has_entry e.block_id es ≡ false = ground arith in
      let ne : e.block_id ≢ x.block_id = λ same. absurd (ground arith) in
      (has_entry-append x.block_id es ∙ ground (arith, d.0), Distinct-append es d.1 rest)

-- the insertion, once there is room
insert-IsTracked :
    (id size addr now : ℕ) (c : L1Cache)
    → IsTrackedBut id c.table c.entries c.current_bytes
    → let t = (hash_table_set c.table id (some addr) now true).1 in
      IsTracked (l1_track_insert id size (record c { table = t }))
      × (view t id ≡ some addr)
      × ((q : ℕ) → q ≢ id → view t q ≡ view c.table q)
insert-IsTracked id size addr now c v =
    let m = (hash_table_set-Models v.valid id addr now).1 in
    let e : L1Entry = record { block_id = id; size = size } in
    let t = (hash_table_set c.table id (some addr) now true).1 in
    let own : view t id ≡ some addr = ground (arith, m.reads id) in
    let other : (q : ℕ) → q ≢ id → view t q ≡ view c.table q = λ q ne. ground (arith, m.reads q) in
    let agree : (q : ℕ) → is_some (view t q) ≡ has_entry q (c.entries ++ (e ∷ [])) = λ q.
      elim (Bool-cases (q == id)) [
        | inl here ↦
            (let same : q ≡ id = ground arith in
              let found : view t q ≡ some addr = ground (arith, m.reads q) in
              let held : has_entry q (c.entries ++ (e ∷ [])) ≡ true =
                has_entry-append e q c.entries ∙ ground arith in
              ap is_some found ∙ sym held)
        | inr below ↦
            (let ne : q ≢ id = ground arith in
              let kept : has_entry q (c.entries ++ (e ∷ [])) ≡ has_entry q c.entries =
                has_entry-append e q c.entries ∙ ground arith in
              ap is_some (other q ne) ∙ v.agree q ne ∙ sym kept)
      ] in
    (
      record {
        valid = m.valid;
        distinct = Distinct-append e c.entries v.distinct v.lacks;
        counted = omega (arith, v.counted, total_size-append e c.entries);
        agree = agree;
      },
      own,
      other,
    )

-- Taking an entry off leaves the table and the bound.
remove_entry-rest :
    (id : ℕ) (t : Table ℕ) (c : L1Cache)
    → let r = l1_remove_entry id c in
      (r.table ≡ c.table)
      × (r.max_bytes ≡ c.max_bytes)
      × (l1_remove_entry id (record c { table = t }) ≡ record r { table = t })
unfolding l1_remove_entry
remove_entry-rest id t c = elim (Option-cases (find_l1 id c.entries)) [
  | inl e ↦ rw (e, l1_remove_entry) (refl, refl, refl)
  | inr (x, e) ↦ rw (e, l1_remove_entry) (refl, refl, refl)
]

-- the room that the eviction leaves
room :
    (id size : ℕ) (c : L1Cache)
    → IsTracked c
    → let r = l1_remove_entry id c in
      let c' = l1_evict_until_fit size r in
      IsEvicted id r.max_bytes size r.table c'.entries c'.current_bytes c'.table
unfolding l1_evict_until_fit
room id size c v = evict-IsEvicted id _ size _ _ _ (remove_entry-But id c v)

remove_entry-entries :
    (id : ℕ) (c : L1Cache) → (l1_remove_entry id c).entries ≡ drop_l1 id c.entries
unfolding l1_remove_entry
remove_entry-entries id c = elim (Option-cases (find_l1 id c.entries)) [
  | inl e ↦
      (let lacks : has_entry id c.entries ≡ false = sym (find_l1-has id c.entries) ∙ ap is_some e in
        rw (e, l1_remove_entry) (sym (drop_l1-lacks id c.entries lacks)))
  | inr (x, e) ↦ rw (e, l1_remove_entry) refl
]

-- The block is the newest entry. Of the others the oldest, `out`, are evicted, no more than had to be, and
-- the bytes are within the bound, unless there is none or no other block is left.
pub record HasRoom (id size : ℕ) (c c' : L1Cache) : Type 0 where
  pub out : List L1Entry
  pub rest : List L1Entry
  pub newest : c'.entries ≡ rest ++ (record { block_id = id; size = size } ∷ [])
  pub front : IsFront c.max_bytes size (drop_l1 id c.entries) out rest
  pub fits : (c.max_bytes ≡ 0) ⊎ ((c'.current_bytes ≤ c.max_bytes) ⊎ (rest ≡ []))

put-HasRoom :
    (id size addr now : ℕ) (c : L1Cache)
    → IsTracked c
    → HasRoom id size c (l1_put id size addr now c)
unfolding l1_put l1_evict_until_fit
put-HasRoom id size addr now c v =
    let r = l1_remove_entry id c in
    let but = remove_entry-But id c v in
    let made = room id size c v in
    let (_, same_max, _) = remove_entry-rest id c.table c in
    let (out, f) = evict-IsFront r.max_bytes size r.entries r.current_bytes r.table but.counted in
    let kept = (l1_evict_until_fit size r).entries in
    record {
      out = out;
      rest = kept;
      newest = refl;
      front =
          subst (λ es. IsFront c.max_bytes size es out kept) (remove_entry-entries id c)
            (subst (λ n. IsFront n size r.entries out kept) same_max f);
      fits = elim made.fits [
        | inl e ↦ inl (sym same_max ∙ e)
        | inr (inl le) ↦ inr (inl (omega (arith, le, same_max)))
        | inr (inr e) ↦ inr (inr e)
      ];
    }

-- Putting a block into the first level keeps its list, its table and its count of bytes in step; the
-- block is found, and every other id maps to what it did or to nothing. The block is the newest entry,
-- with its size. The oldest of the others are evicted, no more than had to be, and the bytes are then within
-- the bound, unless there is none or the block is the only one left.
pub l1_put-IsTracked :
    (id size addr now : ℕ) (c : L1Cache)
    → IsTracked c
    → let c' = l1_put id size addr now c in
      IsTracked c'
      × (view c'.table id ≡ some addr)
      × ((q : ℕ) → q ≢ id → (view c'.table q ≡ none) ⊎ (view c'.table q ≡ view c.table q))
      × HasRoom id size c c'
unfolding l1_put
l1_put-IsTracked id size addr now c v =
    let made = room id size c v in
    let (same_table, _, _) = remove_entry-rest id c.table c in
    let (tracked, own, other) =
      insert-IsTracked id size addr now (l1_evict_until_fit size (l1_remove_entry id c))
        made.kept in
    (
      tracked,
      own,
      λ q ne. elim (made.forgets q) [
        | inl e ↦ inl (other q ne ∙ e)
        | inr e ↦ inr (other q ne ∙ e ∙ ap (λ t. view t q) same_table)
      ],
      put-HasRoom id size addr now c v,
    )

-- An id that is invalidated is no longer found; every other id is.
pub l1_invalidate-IsTracked :
    (id : ℕ) (c : L1Cache)
    → IsTracked c
    → let c' = l1_invalidate id c in
      IsTracked c'
      × (view c'.table id ≡ none)
      × ((q : ℕ) → q ≢ id → view c'.table q ≡ view c.table q)
unfolding l1_invalidate
l1_invalidate-IsTracked id c v =
    let m = (hash_table_remove-Models v.valid id).1 in
    let t = (hash_table_remove c.table id).1 in
    let r = l1_remove_entry id c in
    let but = remove_entry-But id c v in
    let (same_table, _, shape) = remove_entry-rest id t c in
    let gone : view t id ≡ none = ground (arith, m.reads id) in
    let kept : (q : ℕ) → q ≢ id → view t q ≡ view c.table q = λ q ne. ground (arith, m.reads q) in
    let agree : (q : ℕ) → is_some (view t q) ≡ has_entry q r.entries = λ q.
      elim (Bool-cases (q == id)) [
        | inl here ↦
            (let same : q ≡ id = ground arith in
              let none_q : view t q ≡ none = ground (arith, m.reads q) in
              ap is_some none_q ∙ sym (ap (λ k. has_entry k r.entries) same ∙ but.lacks))
        | inr below ↦
            (let ne : q ≢ id = ground arith in
              ap is_some (kept q ne)
              ∙ ap (λ u. is_some (view u q)) (sym same_table)
              ∙ but.agree q ne)
      ] in
    rw shape (
      record { valid = m.valid; distinct = but.distinct; counted = but.counted; agree = agree },
      gone,
      kept,
    )
