-- ===== src/Lru.antt =====
-- The bounded cache of src/module_a/metadata_manager.c (lru_cache_*) over the hash table. The mutex
-- makes each call atomic. The victim of a full cache is the first node of the first bucket that has
-- one.
pub mod Laws
use smartbackup_fs.Base.{
  ℕ, ◌*◌, Bool, Option, none, some, List, [], ◌∷◌, leb, if◌then◌else◌, Status, einval,
}
use smartbackup_fs.HashTable.{
  Table, hash_table_create, hash_table_set, hash_table_get, hash_table_remove, hash_table_clear,
  hash_table_size,
}
use smartbackup_fs.HashTable.Chain.{Node}

-- `lru_cache_t`
pub record LruCache {ℓ} (V : Type ℓ) : Type ℓ where
  pub table : Table V
  pub max_size : ℕ
  pub current_size : ℕ

module _ {ℓ} {V : Type ℓ} where
  unfoldable pub lru_cache_create : ℕ → LruCache V
  lru_cache_create max_size = record {
    table = hash_table_create (max_size * 2);
    max_size = max_size;
    current_size = 0;
  }

  -- the key of the first node that the loop over the buckets meets
  unfoldable pub first_key : List (List (Node V)) → Option ℕ
  first_key [] = none
  first_key ([] ∷ bs) = first_key bs
  first_key ((n ∷ c) ∷ bs) = some n.key

  -- the node that a full cache gives up
  unfoldable pub victim : LruCache V → Option ℕ
  victim c = if leb c.max_size (hash_table_size c.table) then first_key c.table.buckets else none

  unfoldable pub make_room : LruCache V → Table V
  make_room c = elim (victim c) [ none ↦ c.table | some k ↦ (hash_table_remove c.table k).1 ]

  pub lru_cache_put : LruCache V → ℕ → Option V → ℕ → Bool → Status × LruCache V
  lru_cache_put c key none now mem = (einval, c)
  lru_cache_put c key (some v) now mem =
      let (result, t) = hash_table_set (make_room c) key (some v) now mem in
      (result, record c { table = t })

  abbrev pub lru_cache_get : LruCache V → ℕ → ℕ → Option V × LruCache V
  lru_cache_get c key now =
      let (value, t) = hash_table_get c.table key now in (value, record c { table = t })

  abbrev pub lru_cache_remove : LruCache V → ℕ → Status × LruCache V
  lru_cache_remove c key =
      let (result, t) = hash_table_remove c.table key in (result, record c { table = t })

  abbrev pub lru_cache_clear : LruCache V → LruCache V
  lru_cache_clear c = record c { table = hash_table_clear c.table }
