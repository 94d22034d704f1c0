-- ===== src/HashTable/Buckets.antt =====
-- Where the nodes of the hash table stand, the map that it means, and a write to one bucket.
use smartbackup_fs.Base.{
  ℕ, zero, suc, ◌+◌, ◌≤◌, ◌<◌, ◌≡◌, ◌≢◌, refl, ◌∙◌, Option, none, List, [], ◌∷◌, arith, length,
  get_or, set, replicate, length-set, length-replicate, get_or-set, get_or-replicate, ◌==◌,
  if◌then◌else◌,
}
use smartbackup_fs.HashTable.{Table, hash_function, hash_table_create, put_bucket, bucket}
use smartbackup_fs.HashTable.Chain.{Node, value_of, occurs}

pub hash_function-lt : (key size : ℕ) → 0 < size → hash_function key size < size
unfolding hash_function
hash_function-lt key size h = omega arith

module _ {ℓ} {A : Type ℓ} where
  -- the number of items in all the buckets
  unfoldable pub total : List (List A) → ℕ
  total [] = 0
  total (c ∷ cs) = length c + total cs

  pub total-set :
      (bs : List (List A)) (i : ℕ) (c : List A)
      → i < length bs
      → total (set bs i c) + length (get_or bs i []) ≡ total bs + length c
  unfolding total
  total-set [] i c h = absurd (omega arith)
  total-set (x ∷ bs) zero c h = omega arith
  total-set (x ∷ bs) (suc i) c h = omega (arith, total-set bs i c (omega arith))

  pub length-le-total : (bs : List (List A)) (i : ℕ) → length (get_or bs i []) ≤ total bs
  unfolding total
  length-le-total [] i = omega arith
  length-le-total (c ∷ bs) zero = omega arith
  length-le-total (c ∷ bs) (suc i) = omega (arith, length-le-total bs i)

pub total-replicate {ℓ} : (A : Type ℓ) (n : ℕ) → total (replicate {A = List A} n []) ≡ 0
unfolding total
total-replicate A zero = refl
total-replicate A (suc n) = omega (arith, total-replicate A n)

module _ {ℓ} {V : Type ℓ} where
  -- A key stands at most once, and only in the bucket that it hashes to.
  abbrev pub IsPlaced : Table V → Type 0
  IsPlaced t =
      (q i : ℕ)
      → (occurs q (get_or t.buckets i []) ≤ 1)
        × (hash_function q t.size ≢ i → occurs q (get_or t.buckets i []) ≡ 0)

  pub record IsValid (t : Table V) : Type 0 where
    pub width : length t.buckets ≡ t.size
    pub roomy : 0 < t.size
    pub counted : total t.buckets ≡ t.count
    pub placed : IsPlaced t

  -- the map from keys to values that the table stands for
  unfoldable pub view : Table V → ℕ → Option V
  view t q = value_of q (bucket t q)

  -- `t` has the buckets of a valid table with `size` buckets and `count` nodes, and reads as `f`
  pub record Models (size count : ℕ) (f : ℕ → Option V) (t : Table V) : Type ℓ where
    pub valid : IsValid t
    pub same_size : t.size ≡ size
    pub same_count : t.count ≡ count
    pub reads : (q : ℕ) → view t q ≡ f q

  pub Models_congr :
      {size n m : ℕ} {f : ℕ → Option V} (g : ℕ → Option V) {t : Table V}
      → Models size n f t
      → n ≡ m
      → ((q : ℕ) → f q ≡ g q)
      → Models size m g t
  Models_congr g h e p = record {
    valid = h.valid;
    same_size = h.same_size;
    same_count = h.same_count ∙ e;
    reads = λ q. h.reads q ∙ p q;
  }

  -- A table created with a positive number of buckets is valid and empty, and maps every key to
  -- nothing.
  pub hash_table_create-Models : (n : ℕ) → 0 < n → Models n 0 (λ _. none) (hash_table_create n)
  unfolding hash_table_create view value_of occurs
  hash_table_create-Models n h = record {
    valid = record {
      width = length-replicate n [];
      roomy = h;
      counted = total-replicate _ n;
      placed = λ q i. rw (get_or-replicate {A = List (Node V)} n i []) (omega arith);
    };
    same_size = refl;
    same_count = refl;
    reads = λ q. rw (get_or-replicate {A = List (Node V)} n (hash_function q n) []);
  }

  module _ {t : Table V} (v : IsValid t) (key : ℕ) (c : List (Node V)) where
    home : hash_function key t.size < length t.buckets
    home = rw v.width (hash_function-lt key t.size v.roomy)

    -- a write to the bucket of `key` that changes at most what stands under `key`
    pub put_bucket-Models :
        (n : ℕ) (new : Option V)
        → n + length (bucket t key) ≡ t.count + length c
        → ((q : ℕ) → occurs q c ≤ (if q == key then 1 else occurs q (bucket t key)))
        → ((q : ℕ) → value_of q c ≡ (if q == key then new else value_of q (bucket t key)))
        → Models t.size n (λ q. if q == key then new else view t q) (put_bucket t key c n)
    unfolding view
    put_bucket-Models n new sized few reads = record {
      valid = record {
        width = length-set t.buckets _ c ∙ v.width;
        roomy = v.roomy;
        counted = omega (arith, total-set t.buckets (hash_function key t.size) c home, v.counted);
        placed = λ q i.
            rw (get_or-set t.buckets _ i c [] home)
              (ground (arith, few q, v.placed q i, v.placed q (hash_function key t.size)));
      };
      same_size = refl;
      same_count = refl;
      reads = λ q.
          rw (get_or-set t.buckets _ (hash_function q t.size) c [] home) (ground (arith, reads q));
    }
