-- ===== src/Cache/Level1/Laws.antt =====
-- The invariant of the first level, and its eviction.
use smartbackup_fs.Base.{
  ℕ, ◌+◌, ◌≤◌, ◌<◌, ◌≡◌, ◌≢◌, refl, sym, ap, ◌∙◌, Bool, true, false, Option, none, some, List, [],
  ◌∷◌, ◌++◌, ◌==◌, if◌then◌else◌, ◌⊎◌, inl, inr, Bool-cases, Option-cases, arith,
}
use smartbackup_fs.HashTable.{Table, hash_table_remove}
use smartbackup_fs.HashTable.Buckets.{IsValid, view}
use smartbackup_fs.HashTable.Laws.{hash_table_remove-Models}
use smartbackup_fs.Cache.Level1.{
  L1Entry, L1Cache, find_l1, drop_l1, take_off, l1_remove_entry, is_over, evict,
}

-- the bytes of all entries
unfoldable pub total_size : List L1Entry → ℕ
total_size [] = 0
total_size (e ∷ es) = e.size + total_size es

unfoldable pub has_entry : ℕ → List L1Entry → Bool
has_entry id [] = false
has_entry id (e ∷ es) = if e.block_id == id then true else has_entry id es

abbrev pub is_some {ℓ} : {A : Type ℓ} → Option A → Bool
is_some none = false
is_some (some _) = true

-- No id stands twice.
unfoldable pub Distinct : List L1Entry → Type 0
Distinct [] = Unit
Distinct (e ∷ es) = (has_entry e.block_id es ≡ false) × Distinct es

-- the table holds exactly the ids of the entries
abbrev pub Agree : Table ℕ → List L1Entry → Type 0
Agree t es = (q : ℕ) → is_some (view t q) ≡ has_entry q es

-- What holds of the first level between two calls.
pub record IsTracked (c : L1Cache) : Type 0 where
  pub valid : IsValid c.table
  pub distinct : Distinct c.entries
  pub counted : c.current_bytes ≡ total_size c.entries
  pub agree : Agree c.table c.entries

-- the same while the table may still hold the id `but`, which no entry has
pub record IsTrackedBut (but : ℕ) (t : Table ℕ) (es : List L1Entry) (current : ℕ) : Type 0 where
  pub valid : IsValid t
  pub distinct : Distinct es
  pub counted : current ≡ total_size es
  pub lacks : has_entry but es ≡ false
  pub agree : (q : ℕ) → q ≢ but → is_some (view t q) ≡ has_entry q es

pub find_l1-has : (id : ℕ) (es : List L1Entry) → is_some (find_l1 id es) ≡ has_entry id es
unfolding find_l1 has_entry
find_l1-has id [] = refl
find_l1-has id (e ∷ es) = ground (arith, find_l1-has id es)

drop_l1-other :
    (id q : ℕ) (es : List L1Entry) → q ≢ id → has_entry q (drop_l1 id es) ≡ has_entry q es
unfolding drop_l1 has_entry
drop_l1-other id q [] h = refl
drop_l1-other id q (e ∷ es) h = ground (arith, drop_l1-other id q es h)

drop_l1-gone : (id : ℕ) (es : List L1Entry) → Distinct es → has_entry id (drop_l1 id es) ≡ false
unfolding drop_l1 has_entry Distinct
drop_l1-gone id [] d = refl
drop_l1-gone id (e ∷ es) d = ground (arith, drop_l1-gone id es d.1)

pub drop_l1-lacks : (id : ℕ) (es : List L1Entry) → has_entry id es ≡ false → drop_l1 id es ≡ es
unfolding drop_l1 has_entry
drop_l1-lacks id [] h = refl
drop_l1-lacks id (e ∷ es) h = ground (arith, drop_l1-lacks id es)

drop_l1-Distinct : (id : ℕ) (es : List L1Entry) → Distinct es → Distinct (drop_l1 id es)
unfolding drop_l1 Distinct
drop_l1-Distinct id [] d = d
drop_l1-Distinct id (e ∷ es) d = elim (Bool-cases (e.block_id == id)) [
  | inl here ↦ rw here d.1
  | inr below ↦
      (let ne : e.block_id ≢ id = ground arith in
        rw below (drop_l1-other id e.block_id es ne ∙ d.0, drop_l1-Distinct id es d.1))
]

drop_l1-size :
    (id : ℕ) (es : List L1Entry) (e : L1Entry)
    → find_l1 id es ≡ some e
    → total_size es ≡ e.size + total_size (drop_l1 id es)
unfolding drop_l1 find_l1 total_size
drop_l1-size id [] e h = absurd (cc)
drop_l1-size id (x ∷ es) e h = ground (arith, drop_l1-size id es e)

-- After the entry of an id is removed.
pub remove_entry-But :
    (id : ℕ) (c : L1Cache)
    → IsTracked c
    → let c' = l1_remove_entry id c in IsTrackedBut id c'.table c'.entries c'.current_bytes
unfolding l1_remove_entry
remove_entry-But id c v = elim (Option-cases (find_l1 id c.entries)) [
  | inl e ↦
      (let lacks : has_entry id c.entries ≡ false = sym (find_l1-has id c.entries) ∙ ap is_some e in
        rw (e, l1_remove_entry)
          (record {
            valid = v.valid;
            distinct = v.distinct;
            counted = v.counted;
            lacks = lacks;
            agree = λ q ne. v.agree q;
          }))
  | inr (x, e) ↦
      (let size = drop_l1-size id c.entries x e in
        rw (e, l1_remove_entry)
          (record {
            valid = v.valid;
            distinct = drop_l1-Distinct id c.entries v.distinct;
            counted = ground (arith, v.counted, size);
            lacks = drop_l1-gone id c.entries v.distinct;
            agree = λ q ne. v.agree q ∙ sym (drop_l1-other id q c.entries ne);
          }))
]

-- what an eviction may do to the table's map
abbrev pub Forgets : Table ℕ → Table ℕ → Type 0
Forgets t t' = (q : ℕ) → (view t' q ≡ none) ⊎ (view t' q ≡ view t q)

-- The loop keeps the rest, and stops with room for the block, with no entry, or without a bound.
pub record IsEvicted (but max_bytes incoming : ℕ) (t : Table ℕ) (es : List L1Entry) (current : ℕ)
    (t' : Table ℕ) : Type 0 where
  pub kept : IsTrackedBut but t' es current
  pub forgets : Forgets t t'
  pub fits : (max_bytes ≡ 0) ⊎ ((current + incoming ≤ max_bytes) ⊎ (es ≡ []))
  pub same : view t' but ≡ view t but

Distinct-lacks :
    (but : ℕ) (e : L1Entry) (es : List L1Entry)
    → has_entry but (e ∷ es) ≡ false
    → (has_entry but es ≡ false) × (but ≢ e.block_id)
unfolding has_entry
Distinct-lacks but e es h = (ground arith, λ same. absurd (ground arith))

-- one round of the loop
evict_round :
    (but : ℕ) (e : L1Entry) (es : List L1Entry) (current : ℕ) (t : Table ℕ)
    → IsTrackedBut but t (e ∷ es) current
    → let t1 = (hash_table_remove t e.block_id).1 in
      IsTrackedBut but t1 es (take_off current e.size) × Forgets t t1 × (view t1 but ≡ view t but)
unfolding has_entry total_size Distinct
evict_round but e es current t v =
    let m = (hash_table_remove-Models v.valid e.block_id).1 in
    let apart = Distinct-lacks but e es v.lacks in
    let t1 = (hash_table_remove t e.block_id).1 in
    let agree : (q : ℕ) → q ≢ but → is_some (view t1 q) ≡ has_entry q es = λ q ne.
      elim (Bool-cases (q == e.block_id)) [
        | inl here ↦
            (let same : q ≡ e.block_id = ground arith in
              let gone : view t1 q ≡ none = ground (arith, m.reads q) in
              ap is_some gone ∙ sym (ap (λ k. has_entry k es) same ∙ v.distinct.0))
        | inr below ↦
            (let kept : view t1 q ≡ view t q = ground (arith, m.reads q) in
              let in_list : has_entry q (e ∷ es) ≡ has_entry q es = ground arith in
              ap is_some kept ∙ v.agree q ne ∙ in_list)
      ] in
    (
      record {
        valid = m.valid;
        distinct = v.distinct.1;
        counted = ground (arith, v.counted);
        lacks = apart.0;
        agree = agree;
      },
      λ q. elim (Bool-cases (q == e.block_id)) [
        | inl here ↦ inl (ground (arith, m.reads q))
        | inr below ↦ inr (ground (arith, m.reads q))
      ],
      ground (arith, m.reads but, apart.1),
    )

Forgets-trans : (t u w : Table ℕ) → Forgets t u → Forgets u w → Forgets t w
Forgets-trans t u w f g q = elim (g q) [
  | inl e ↦ inl e
  | inr e ↦ elim (f q) [ inl e' ↦ inl (e ∙ e') | inr e' ↦ inr (e ∙ e') ]
]

pub evict-IsEvicted :
    (but max_bytes incoming : ℕ) (es : List L1Entry) (current : ℕ) (t : Table ℕ)
    → IsTrackedBut but t es current
    → let (es', current', t') = evict max_bytes incoming es current t in
      IsEvicted but max_bytes incoming t es' current' t'
unfolding evict
evict-IsEvicted but max_bytes incoming [] current t v = record {
  kept = v;
  forgets = λ q. inr refl;
  fits = inr (inr refl);
  same = refl;
}
evict-IsEvicted but max_bytes incoming (e ∷ es) current t v =
    elim (Bool-cases (is_over max_bytes current incoming)) [
      | inr stop ↦
          rw stop (record { kept = v; forgets = λ q. inr refl; fits = ground arith; same = refl })
      | inl more ↦
          (let (kept, forgets, same) = evict_round but e es current t v in
            let rest =
              evict-IsEvicted but max_bytes incoming es (take_off current e.size)
                (hash_table_remove t e.block_id).1 kept in
            rw more (record {
              kept = rest.kept;
              forgets = Forgets-trans t _ _ forgets rest.forgets;
              fits = rest.fits;
              same = rest.same ∙ same;
            }))
    ]

-- The loop takes entries off the front, and the last one that it takes had to go.
pub record IsFront (max_bytes incoming : ℕ) (es out rest : List L1Entry) : Type 0 where
  pub split : es ≡ out ++ rest
  pub needed :
      (xs : List L1Entry) (x : L1Entry)
      → out ≡ xs ++ (x ∷ [])
      → (0 < max_bytes) × (max_bytes < x.size + total_size rest + incoming)

last-cons :
    (e x : L1Entry) (out xs : List L1Entry)
    → e ∷ out ≡ xs ++ (x ∷ [])
    → ((out ≡ []) × (e ≡ x)) ⊎ ((ys : List L1Entry) × (out ≡ ys ++ (x ∷ [])))
last-cons e x out [] h = inl (cc, cc)
last-cons e x out (y ∷ ys) h = inr (ys, cc)

last-none : (x : L1Entry) (xs : List L1Entry) → [] ≡ xs ++ (x ∷ []) → ⊥
last-none x [] h = cc
last-none x (y ∷ ys) h = cc

pub evict-IsFront :
    (max_bytes incoming : ℕ) (es : List L1Entry) (current : ℕ) (t : Table ℕ)
    → current ≡ total_size es
    → (out : List L1Entry) × IsFront max_bytes incoming es out
        (evict max_bytes incoming es current t).0
unfolding evict total_size
evict-IsFront max_bytes incoming [] current t h =
    ([], record { split = refl; needed = λ xs x e. absurd (last-none x xs e) })
evict-IsFront max_bytes incoming (e ∷ es) current t h =
    elim (Bool-cases (is_over max_bytes current incoming)) [
      | inr stop ↦
          rw stop ([], record { split = refl; needed = λ xs x k. absurd (last-none x xs k) })
      | inl more ↦
          (let t1 = (hash_table_remove t e.block_id).1 in
            let left = take_off current e.size in
            let (out, f) = evict-IsFront max_bytes incoming es left t1 (ground (arith, h)) in
            let rest = (evict max_bytes incoming es left t1).0 in
            let bound : (0 < max_bytes) × (max_bytes < current + incoming) = ground arith in
            rw more (
              e ∷ out,
              record {
                split = ap (λ l. e ∷ l) f.split;
                needed = λ xs x k. elim (last-cons e x out xs k) [
                  | inl (bare, same) ↦
                      (let all : total_size es ≡ total_size rest =
                          ap total_size (f.split ∙ ap (λ l. l ++ rest) bare) in
                        let size : e.size ≡ x.size = ap (λ y. y.size) same in
                        (bound.0, omega (arith, bound.1, h, all, size)))
                  | inr (ys, r) ↦ f.needed ys x r
                ];
              },
            ))
    ]
