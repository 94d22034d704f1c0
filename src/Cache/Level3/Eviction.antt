-- ===== src/Cache/Level3/Eviction.antt =====
-- The rounds of the eviction of the third level.
use smartbackup_fs.Base.{
  ℕ, zero, suc, ◌+◌, ◌<◌, ◌≡◌, refl, sym, ap, ◌∙◌, false, none, some, List, [], ◌∷◌, length, ◌==◌,
  ◌⊎◌, inl, inr, Bool-cases, Option-cases, arith,
}
use smartbackup_fs.HashTable.Chain.{Node, value_of}
use smartbackup_fs.HashTable.{Table, bucket, hash_function, hash_table_get, hash_table_remove}
use smartbackup_fs.HashTable.Buckets.{length-le-total, IsValid, view}
use smartbackup_fs.HashTable.Laws.{found, hash_table_get-Models, hash_table_remove-Models}
use smartbackup_fs.Cache.Level3.{
  L3Entry, L3Cache, drop_index, l3_remove_entry, all_nodes, find_oldest, needs_room, evict_rounds,
}
use smartbackup_fs.Cache.Level3.Oldest.{
  find_oldest-none, length-all_nodes, IsKeyed, find_oldest-view,
}

pub record IsIndexed (t : Table L3Entry) : Type 0 where
  pub valid : IsValid t
  pub keyed : IsKeyed t

-- a table that reads as another, except for what it forgot
abbrev pub Forgets : Table L3Entry → Table L3Entry → Type 0
Forgets t t' = (q : ℕ) → (view t' q ≡ none) ⊎ (view t' q ≡ view t q)

pub Forgets-IsKeyed : (t t' : Table L3Entry) → Forgets t t' → IsKeyed t → IsKeyed t'
Forgets-IsKeyed t t' f k q e h = elim (f q) [
  | inl gone ↦ absurd (cc)
  | inr kept ↦ k q e (sym kept ∙ h)
]

-- an entry that the index does not hold any more
remove_absent :
    (id now : ℕ) (c : L3Cache)
    → IsValid c.index
    → view c.index id ≡ none
    → l3_remove_entry id now c ≡ record c { index = (hash_table_get c.index id now).1 }
unfolding l3_remove_entry
remove_absent id now c v h =
    let missed : (hash_table_get c.index id now).0 ≡ none =
      (hash_table_get-Models v id now).0 ∙ h in
    rw (missed, l3_remove_entry) refl

-- One round takes the entry off the index, and nothing else.
pub record IsDropped (c c' : L3Cache) : Type 0 where
  pub indexed : IsIndexed c'.index
  pub forgets : Forgets c.index c'.index
  pub fewer : c'.index.count + 1 ≡ c.index.count
  pub same_bytes : c'.current_bytes ≡ c.current_bytes
  pub same_bounds :
      (c'.capacity_bytes ≡ c.capacity_bytes)
      × (c'.max_entries ≡ c.max_entries)
      × (c'.slot_size ≡ c.slot_size)
      × (c'.expire_seconds ≡ c.expire_seconds)
  pub same_files : c'.files ≡ c.files

value_of-length :
    (id : ℕ) (c : List (Node L3Entry)) (e : L3Entry) → value_of id c ≡ some e → 0 < length c
unfolding value_of
value_of-length id [] e h = absurd (cc)
value_of-length id (n ∷ c) e h = omega arith

count-view :
    (t : Table L3Entry) (id : ℕ) (e : L3Entry) → IsValid t → view t id ≡ some e → 0 < t.count
unfolding view
count-view t id e v h = omega (
  arith,
  value_of-length id (bucket t id) e h,
  length-le-total t.buckets (hash_function id t.size),
  v.counted,
)

round :
    (now : ℕ) (e : L3Entry) (c : L3Cache)
    → IsIndexed c.index
    → view c.index e.block_id ≡ some e
    → IsDropped c (l3_remove_entry e.block_id now (drop_index e.block_id c))
round now e c v h =
    let id = e.block_id in
    let m = (hash_table_remove-Models v.valid id).1 in
    let t = (hash_table_remove c.index id).1 in
    let gone : view t id ≡ none = ground (arith, m.reads id) in
    let g = (hash_table_get-Models m.valid id now).1 in
    let t' = (hash_table_get t id now).1 in
    let forgets : Forgets c.index t' = λ q. elim (Bool-cases (q == id)) [
      | inl here ↦ inl (g.reads q ∙ ground (arith, m.reads q))
      | inr away ↦ inr (g.reads q ∙ ground (arith, m.reads q))
    ] in
    let one : found (view c.index id) ≡ 1 = ap found h in
    rw (remove_absent id now (drop_index id c) m.valid gone) (record {
      indexed = record { valid = g.valid; keyed = Forgets-IsKeyed c.index t' forgets v.keyed };
      forgets = forgets;
      fewer = omega (arith, g.same_count, m.same_count, one, count-view c.index id e v.valid h);
      same_bytes = refl;
      same_bounds = (refl, refl, refl, refl);
      same_files = refl;
    })

-- What the loop comes to.
pub record IsEvicted (incoming : ℕ) (c c' : L3Cache) : Type 0 where
  pub indexed : IsIndexed c'.index
  pub forgets : Forgets c.index c'.index
  pub done : (c'.index.count ≡ 0) ⊎ (needs_room incoming c' ≡ false)
  pub same_bytes : c'.current_bytes ≡ c.current_bytes
  pub same_bounds :
      (c'.capacity_bytes ≡ c.capacity_bytes)
      × (c'.max_entries ≡ c.max_entries)
      × (c'.slot_size ≡ c.slot_size)
      × (c'.expire_seconds ≡ c.expire_seconds)
  pub same_files : c'.files ≡ c.files

stays :
    (incoming : ℕ) (c : L3Cache)
    → IsIndexed c.index
    → (c.index.count ≡ 0) ⊎ (needs_room incoming c ≡ false)
    → IsEvicted incoming c c
stays incoming c v d = record {
  indexed = v;
  forgets = λ q. inr refl;
  done = d;
  same_bytes = refl;
  same_bounds = (refl, refl, refl, refl);
  same_files = refl;
}

goes_on :
    (incoming : ℕ) (c d e : L3Cache)
    → IsDropped c d
    → IsEvicted incoming d e
    → IsEvicted incoming c e
goes_on incoming c d e r v = record {
  indexed = v.indexed;
  forgets = λ q. elim (v.forgets q) [
    | inl gone ↦ inl gone
    | inr kept ↦ elim (r.forgets q) [ inl gone ↦ inl (kept ∙ gone) | inr same ↦ inr (kept ∙ same) ]
  ];
  done = v.done;
  same_bytes = v.same_bytes ∙ r.same_bytes;
  same_bounds =
      let (a, b, s, x) = v.same_bounds in
      let (a', b', s', x') = r.same_bounds in (a ∙ a', b ∙ b', s ∙ s', x ∙ x');
  same_files = v.same_files ∙ r.same_files;
}

pub evict_rounds-IsEvicted :
    (n incoming now : ℕ) (c : L3Cache)
    → IsIndexed c.index
    → c.index.count < n
    → (c' : L3Cache) × ((evict_rounds n incoming now c ≡ some c') × IsEvicted incoming c c')
unfolding evict_rounds
evict_rounds-IsEvicted zero incoming now c v h = absurd (omega arith)
evict_rounds-IsEvicted (suc n) incoming now c v h = elim (Bool-cases (needs_room incoming c)) [
  | inr enough ↦ (c, (rw (enough, evict_rounds) refl, stays incoming c v (inr enough)))
  | inl more ↦ elim (Option-cases (find_oldest none (all_nodes c.index.buckets))) [
    | inl empty ↦
        (let counted = find_oldest-none (all_nodes c.index.buckets) empty in
          let zero_left : c.index.count ≡ 0 =
            omega (arith, counted, length-all_nodes c.index.buckets, v.valid.counted) in
          (c, (rw (more, evict_rounds, empty) refl, stays incoming c v (inl zero_left))))
    | inr (e, oldest) ↦
        (let held = find_oldest-view c.index e v.valid v.keyed oldest in
          let r = round now e c v held in
          let d = l3_remove_entry e.block_id now (drop_index e.block_id c) in
          let (c', (ends, rest)) =
            evict_rounds-IsEvicted n incoming now d r.indexed (omega (arith, r.fewer)) in
          (c', (rw (more, evict_rounds, oldest) ends, goes_on incoming c d c' r rest)))
  ]
]
