-- ===== src/HashTable.antt =====
-- The chained hash table of src/module_a/metadata_manager.c (hash_table_*), over the nodes and the
-- table of include/smartbackupfs.h. A node's value is a non-null pointer; what `time(NULL)` gives
-- and whether `malloc` succeeds are arguments. A table of size 0 divides by zero in C; it is
-- excluded by `IsValid`.
pub mod Chain
pub mod Buckets
pub mod Laws
use smartbackup_fs.Base.{
  ℕ, zero, suc, ◌+◌, ◌-◌, ◌*◌, ◌/◌, ◌%◌, ◌^◌, bit_xor, Option, none, some, List, [], ◌∷◌, Bool,
  true, false, get_or, set, replicate, length, map, if◌then◌else◌, Status, success, einval, enoent,
  enomem,
}
use smartbackup_fs.HashTable.Chain.{Node, find_node, assign, push, touch, erase}

-- `hash_table_t`
pub record Table {ℓ} (V : Type ℓ) : Type ℓ where
  pub buckets : List (List (Node V))
  pub size : ℕ
  pub count : ℕ

abbrev pub fnv_offset : ℕ
fnv_offset = 14695981039346656037

-- one round of the loop, on the byte `i` of the key
abbrev hash_round : ℕ → ℕ → ℕ → ℕ
hash_round key h i = bit_xor (h * 1099511628211 % 2 ^ 64) (key / 2 ^ (i * 8) % 256)

-- the rounds `i`, `i + 1`, … of which `n` are left
hash_rounds : ℕ → ℕ → ℕ → ℕ → ℕ
hash_rounds zero key i h = h
hash_rounds (suc n) key i h = hash_rounds n key (i + 1) (hash_round key h i)

pub hash_function : ℕ → ℕ → ℕ
unfolding hash_rounds
hash_function key size = hash_rounds 8 (bit_xor key fnv_offset) 0 fnv_offset % size

module _ {ℓ} {V : Type ℓ} where
  unfoldable pub hash_table_create : ℕ → Table V
  hash_table_create size = record { buckets = replicate size []; size = size; count = 0 }

  -- the bucket that a key hashes to
  abbrev pub bucket : Table V → ℕ → List (Node V)
  bucket t key = get_or t.buckets (hash_function key t.size) []

  abbrev pub put_bucket : Table V → ℕ → List (Node V) → ℕ → Table V
  put_bucket t key c n = record t {
    buckets = set t.buckets (hash_function key t.size) c;
    count = n;
  }

  -- An existing node is overwritten; else a node goes to the front, if `malloc` succeeds (`mem`).
  pub hash_table_set : Table V → ℕ → Option V → ℕ → Bool → Status × Table V
  hash_table_set t key none now mem = (einval, t)
  hash_table_set t key (some v) now mem =
      let c = bucket t key in
      elim (find_node key c) [
        | some old ↦ (success, put_bucket t key (assign key v now c) t.count)
        | none ↦
            if mem
            then (success, put_bucket t key (push key v now c) (t.count + 1))
            else (enomem, t)
      ]

  -- A hit stamps the node with the time.
  pub hash_table_get : Table V → ℕ → ℕ → Option V × Table V
  hash_table_get t key now =
      let c = bucket t key in
      elim (find_node key c) [
        | some n ↦ (some n.value, put_bucket t key (touch key now c) t.count)
        | none ↦ (none, t)
      ]

  pub hash_table_remove : Table V → ℕ → Status × Table V
  hash_table_remove t key =
      let c = bucket t key in
      elim (find_node key c) [
        | some n ↦ (success, put_bucket t key (erase key c) (t.count - 1))
        | none ↦ (enoent, t)
      ]

  unfoldable pub hash_table_clear : Table V → Table V
  hash_table_clear t = record t { buckets = map (λ _. []) t.buckets; count = 0 }

  abbrev pub hash_table_size : Table V → ℕ
  hash_table_size t = t.count
