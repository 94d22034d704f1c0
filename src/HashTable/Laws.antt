-- ===== src/HashTable/Laws.antt =====
-- Each operation of the hash table refines the one on the map that the table stands for.
use smartbackup_fs.Base.{
  Bool, false, einval, enomem, List, [], ◌∷◌, zero, suc, get_or, map, length-map, ◌∙◌, ℕ, ◌+◌, ◌-◌,
  ◌≡◌, refl, Option, none, some, arith, true, ◌==◌, if◌then◌else◌, success, enoent, Option-cases,
  inl, inr,
}
use mathlib.Core.Option
use smartbackup_fs.HashTable.{
  hash_table_clear, hash_function, Table, hash_function, hash_table_set, hash_table_get,
  hash_table_remove, bucket,
}
use smartbackup_fs.HashTable.Chain.{
  Node, occurs, find_node, occurs-push, value_of-push, occurs_kept, value_of, assign, push, touch,
  erase, value_of-find_node, value_of-assign, occurs-assign, length-assign, value_of-touch,
  occurs-touch, length-touch, value_of-erase, occurs-erase-le, length-erase,
}
use smartbackup_fs.HashTable.Buckets.{
  total, IsValid, view, Models, put_bucket-Models, Models_congr, length-le-total,
}

abbrev pub found {ℓ} : {V : Type ℓ} → Option V → ℕ
found none = 0
found (some _) = 1

module _ {ℓ} {V : Type ℓ} where
  view-find_node :
      (t : Table V) (k : ℕ) → view t k ≡ Option.map (λ n. n.value) (find_node k (bucket t k))
  unfolding view
  view-find_node t k = value_of-find_node k (bucket t k)

  module _ {t : Table V} (v : IsValid t) (key : ℕ) where
    unchanged : Models t.size t.count (view t) t
    unchanged = record { valid = v; same_size = refl; same_count = refl; reads = λ q. refl }

    same :
        (q now : ℕ)
        → value_of q (touch key now (bucket t key))
          ≡ (if q == key then view t key else value_of q (bucket t key))
    unfolding view
    same q now = ground (arith, value_of-touch key q now (bucket t key))

    own : (q : ℕ) → (if q == key then view t key else view t q) ≡ view t q
    own q = ground arith

    absent :
        find_node key (bucket t key) ≡ none
        → (q : ℕ) → view t q ≡ (if q == key then none else view t q)
    absent e q = ground (arith, view-find_node t key)

    -- Storing a value (with memory for the node) succeeds; afterwards the key maps to the value and
    -- every other key to what it did, the table is valid, and the count has grown by one exactly if
    -- the key was absent.
    pub hash_table_set-Models :
        (x : V) (now : ℕ)
        → let (s, t') = hash_table_set t key (some x) now true in
          (s ≡ success)
          × Models t.size
              (t.count + 1 - found (view t key))
              (λ q. if q == key then some x else view t q)
              t'
    unfolding hash_table_set
    hash_table_set-Models x now =
        let c = bucket t key in
        elim (Option-cases (find_node key c)) [
          | inl e ↦
              let m =
                put_bucket-Models v key (push key x now c) (t.count + 1) (some x) (omega arith)
                  (λ q. occurs-push key q x now c e) (λ q. value_of-push key q x now c) in
              rw (view-find_node t key, e, hash_table_set)
                (refl, Models_congr _ m (omega arith) (λ q. refl))
          | inr (n, e) ↦
              let m =
                put_bucket-Models v key (assign key x now c) t.count (some x)
                  (omega (arith, length-assign key x now c))
                  (λ q.
                    occurs_kept key q c _ (omega (arith, occurs-assign key q x now c))
                      (v.placed key _).0)
                  (λ q. value_of-assign key q x now c n e) in
              rw (view-find_node t key, e, hash_table_set)
                (refl, Models_congr _ m (omega arith) (λ q. refl))
        ]

    -- A lookup returns what the map holds under the key, and changes no value.
    pub hash_table_get-Models :
        (now : ℕ)
        → let (r, t') = hash_table_get t key now in
          (r ≡ view t key) × Models t.size t.count (view t) t'
    unfolding hash_table_get
    hash_table_get-Models now =
        let c = bucket t key in
        elim (Option-cases (find_node key c)) [
          | inl e ↦ rw (view-find_node t key, e, hash_table_get) (refl, unchanged)
          | inr (n, e) ↦
              let m =
                put_bucket-Models v key (touch key now c) t.count (view t key)
                  (omega (arith, length-touch key now c))
                  (λ q.
                    occurs_kept key q c _ (omega (arith, occurs-touch key q now c))
                      (v.placed key _).0)
                  (λ q. same q now) in
              rw (view-find_node t key, e, hash_table_get)
                (refl, Models_congr _ m refl (λ q. own q))
        ]

    -- Removing a key says whether it was there; afterwards it maps to nothing and every other key
    -- to what it did, and the count has fallen by one exactly if the key was present.
    pub hash_table_remove-Models :
        let (s, t') = hash_table_remove t key in
        (s ≡ (if found (view t key) == 1 then success else enoent))
        × Models t.size (t.count - found (view t key)) (λ q. if q == key then none else view t q) t'
    unfolding hash_table_remove
    hash_table_remove-Models =
        let c = bucket t key in
        elim (Option-cases (find_node key c)) [
          | inl e ↦
              rw (view-find_node t key, e, hash_table_remove)
                (refl, Models_congr _ unchanged (omega arith) (absent e))
          | inr (n, e) ↦
              let m =
                put_bucket-Models v key (erase key c) (t.count - 1) none
                  (omega (
                    arith,
                    length-erase key c n e,
                    length-le-total t.buckets (hash_function key t.size),
                    v.counted,
                  ))
                  (λ q. occurs_kept key q c _ (occurs-erase-le key q c) (v.placed key _).0)
                  (λ q. value_of-erase key q c (v.placed key _).0) in
              rw (view-find_node t key, e, hash_table_remove)
                (refl, Models_congr _ m (omega arith) (λ q. refl))
        ]

    -- A null value is refused, and a new key with no memory for its node too; both leave the table
    -- alone.
    pub hash_table_set_refused :
        (x : V) (now : ℕ) (mem : Bool)
        → (hash_table_set t key none now mem ≡ (einval, t))
          × (view t key ≡ none → hash_table_set t key (some x) now false ≡ (enomem, t))
    unfolding hash_table_set
    hash_table_set_refused x now mem = (refl, λ h. ground (arith, view-find_node t key))

  total-clear : (bs : List (List (Node V))) → total (map {B = List (Node V)} (λ _. []) bs) ≡ 0
  unfolding total
  total-clear [] = refl
  total-clear (c ∷ bs) = omega (arith, total-clear bs)

  get_or-clear :
      (bs : List (List (Node V))) (i : ℕ) → get_or (map {B = List (Node V)} (λ _. []) bs) i [] ≡ []
  get_or-clear [] i = refl
  get_or-clear (c ∷ bs) zero = refl
  get_or-clear (c ∷ bs) (suc i) = get_or-clear bs i

  -- Clearing leaves a valid table of the same width that maps every key to nothing.
  pub hash_table_clear-Models :
      {t : Table V} → IsValid t → Models t.size 0 (λ _. none) (hash_table_clear t)
  unfolding hash_table_clear view value_of occurs
  hash_table_clear-Models {t} v = record {
    valid = record {
      width = length-map t.buckets _ ∙ v.width;
      roomy = v.roomy;
      counted = total-clear t.buckets;
      placed = λ q i. rw (get_or-clear t.buckets i) (omega arith);
    };
    same_size = refl;
    same_count = refl;
    reads = λ q. rw (get_or-clear t.buckets (hash_function q t.size));
  }
