-- ===== src/Lru/Laws.antt =====
-- The bounded cache never holds more than its capacity, keeps what it was given last, and gives up
-- at most one key for it.
use smartbackup_fs.Base.{
  ℕ, suc, ◌≤◌, ◌<◌, ◌≡◌, refl, sym, ap, Option, none, some, List, [], ◌∷◌, arith, get_or, true,
  ◌==◌, if◌then◌else◌, success, Option-cases, Bool-cases, inl, inr, leb, leb→le, tests,
}
use native.Mathlib.Decide.{ℕ_discrete}
use smartbackup_fs.HashTable.{Table, hash_function}
use smartbackup_fs.HashTable.Chain.{Node, occurs, value_of}
use smartbackup_fs.HashTable.Buckets.{IsValid, view, Models, Models_congr, total}
use smartbackup_fs.HashTable.Laws.{found, hash_table_set-Models, hash_table_remove-Models}
use smartbackup_fs.Lru.{LruCache, first_key, victim, make_room, lru_cache_put}

module _ {ℓ} {V : Type ℓ} where
  first_key-none : (bs : List (List (Node V))) → first_key bs ≡ none → total bs ≡ 0
  unfolding first_key total
  first_key-none [] h = refl
  first_key-none ([] ∷ bs) h = omega (arith, first_key-none bs h)
  first_key-none ((n ∷ c) ∷ bs) h = ground arith

  first_key-occurs :
      (bs : List (List (Node V))) (k : ℕ)
      → first_key bs ≡ some k
      → (i : ℕ) × (1 ≤ occurs k (get_or bs i []))
  unfolding first_key occurs
  first_key-occurs [] k h = ground arith
  first_key-occurs ([] ∷ bs) k h = let (i, le) = first_key-occurs bs k h in (suc i, le)
  first_key-occurs ((n ∷ c) ∷ bs) k h = (0, ground arith)

  occurs-value_of : (k : ℕ) (c : List (Node V)) → 1 ≤ occurs k c → found (value_of k c) ≡ 1
  unfolding occurs value_of
  occurs-value_of k [] h = ground arith
  occurs-value_of k (n ∷ c) h = ground (arith, occurs-value_of k c)

  first_key-found :
      {t : Table V} (k : ℕ) → IsValid t → first_key t.buckets ≡ some k → found (view t k) ≡ 1
  unfolding view
  first_key-found {t} k v h =
      let (i, le) = first_key-occurs t.buckets k h in
      occurs-value_of k _ (elim (ℕ_discrete (hash_function k t.size) i) [
        | yes e ↦ rw e le
        | no n ↦ absurd (omega (arith, (v.placed k i).1 n))
      ])

  -- the map of a cache that has given up its victim
  abbrev pub without : Option ℕ → (ℕ → Option V) → ℕ → Option V
  without none f q = f q
  without (some k) f q = if q == k then none else f q

  -- With a capacity the victim of a full valid cache exists and is in the table.
  victim-found :
      (c : LruCache V)
      → IsValid c.table
      → (k : ℕ) → victim c ≡ some k
      → (found (view c.table k) ≡ 1) × (c.max_size ≤ c.table.count)
  unfolding victim
  victim-found c v k e = elim (Bool-cases (leb c.max_size c.table.count)) [
    | inl full ↦
        (first_key-found {t = c.table} k v (rw full at e), leb→le c.max_size c.table.count full)
    | inr room ↦ ground arith
  ]

  victim-none :
      (c : LruCache V)
      → IsValid c.table
      → 0 < c.max_size
      → victim c ≡ none
      → c.table.count < c.max_size
  unfolding victim
  victim-none c v roomy e = elim (Bool-cases (leb c.max_size c.table.count)) [
    | inl full ↦ absurd (
        omega (
          tests,
          v.counted,
          leb→le c.max_size c.table.count full,
          first_key-none c.table.buckets (rw full at e),
        ))
    | inr room ↦ ground arith
  ]

  make_room-Models :
      (c : LruCache V)
      → IsValid c.table
      → 0 < c.max_size
      → Models c.table.size (make_room c).count (without (victim c) (view c.table)) (make_room c)
        × (c.table.count ≤ c.max_size → (make_room c).count < c.max_size)
  unfolding make_room
  make_room-Models c v roomy = elim (Option-cases (victim c)) [
    | inl e ↦
        rw (e, make_room)
          (
            record { valid = v; same_size = refl; same_count = refl; reads = λ q. refl },
            λ h. victim-none c v roomy e,
          )
    | inr (k, e) ↦
        let (gone, m) = hash_table_remove-Models v k in
        let (there, full) = victim-found c v k e in
        rw (e, make_room)
          (Models_congr _ m (sym m.same_count) (λ q. refl), λ h. omega (arith, m.same_count))
  ]

  -- what holds of the map when there was room, and when one key had to go
  pub data PutResult (c : LruCache V) (key : ℕ) (x : V) (f : ℕ → Option V) : Type ℓ where
    kept :
        c.table.count < c.max_size
        → ((q : ℕ) → f q ≡ (if q == key then some x else view c.table q))
        → PutResult c key x f
    gave_up :
        (k : ℕ)
        → c.max_size ≤ c.table.count
        → found (view c.table k) ≡ 1
        → ((q : ℕ) → f q ≡ (if q == key then some x else if q == k then none else view c.table q))
        → PutResult c key x f

  -- Putting a value into a valid cache with a capacity that is not exceeded succeeds, if there is
  -- memory for a node: the table stays valid and within the capacity, and the key maps to the value.
  -- If the cache was not full, every other key maps to what it did; if it was, so does every other key
  -- but one, which was there and maps to nothing unless it is the key itself.
  pub lru_cache_put-Models :
      (c : LruCache V) (key now : ℕ) (x : V)
      → IsValid c.table
      → 0 < c.max_size
      → c.table.count ≤ c.max_size
      → let (s, c') = lru_cache_put c key (some x) now true in
        (s ≡ success)
        × (c'.table.count ≤ c.max_size)
        × (c'.max_size ≡ c.max_size)
        × IsValid c'.table
        × PutResult c key x (view c'.table)
  unfolding lru_cache_put
  lru_cache_put-Models c key now x v roomy fits =
      let (r, small) = make_room-Models c v roomy in
      let (ok, m) = hash_table_set-Models r.valid key x now in
      (
        ok,
        omega (arith, m.same_count, small fits),
        refl,
        m.valid,
        elim (Option-cases (victim c)) [
          | inl e ↦
              kept (victim-none c v roomy e)
                λ q. ground (arith, m.reads q, r.reads q, ap (λ o. without o (view c.table) q) e)
          | inr (k, e) ↦
              let (there, full) = victim-found c v k e in
              gave_up k full there
                λ q. ground (arith, m.reads q, r.reads q, ap (λ o. without o (view c.table) q) e)
        ],
      )
