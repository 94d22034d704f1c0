-- ===== src/Tests/Creations.antt =====
-- Inputs for version_manager_create_version (src/module_b/version_manager.c): a file with one version,
-- marked as important, whose first block has changed.
use smartbackup_fs.Base.{
  ℕ, ◌<◌, ◌≡◌, refl, [], ◌∷◌, Option, none, some, true, false, length, inl, arith,
}
use mathlib.Core.Option
use mathlib.Core.Path.{subst}
use smartbackup_fs.Block.{DataBlock, BlockMap, Decompressor, plain_bytes, is_compressed}
use smartbackup_fs.Lru.{LruCache}
use smartbackup_fs.Version.Types.{VersionNode, VersionChain, VersionState, FileMeta}
use smartbackup_fs.Version.Lookup.{snapshot_get_block_data}
use smartbackup_fs.Version.Lookup.Laws.{has}
use smartbackup_fs.Version.Remove.Kept.{IsValid}
use smartbackup_fs.Version.Retention.{Policy, total_stored}
use smartbackup_fs.Version.Retention.Laws.{IsRoomy, has_important}
use smartbackup_fs.Version.Retention.Within.{IsWithin}
use smartbackup_fs.Version.Create.{
  Call, cache_version, push_version, record_version, version_manager_create_version,
}
use smartbackup_fs.Version.Create.Push.{AllFilled}
use smartbackup_fs.Version.Create.Laws.{
  created, pushed, create_returns, version_manager_create_version_frees,
  version_manager_create_version-older,
}

abbrev only : VersionNode
only = record {
  addr = 100;
  version_id = 1;
  parent_id = 0;
  parent = none;
  create_time = 1000;
  description = none;
  is_important = true;
  diff_blocks = 0 ∷ [];
  block_checksums = 11 ∷ [];
  block_count = 1;
  file_size = 2;
  blocks = 1;
  snapshots = record { size = 2; buffer = some (1 ∷ 2 ∷ []); has_data = true } ∷ [];
  snapshot_count = 1;
  stored_bytes = 2000000;
}

abbrev chain : VersionChain
chain = record { file_ino = 5; nodes = only ∷ []; count = 1 }

chain-IsValid : IsValid chain
unfolding has
chain-IsValid = record {
  linked = (refl, refl, refl, ((λ _. (1 ∷ 2 ∷ [], refl, refl, omega arith)), tt), tt);
  descending = (omega arith, tt);
  counted = refl;
}

abbrev meta : FileMeta
meta = record {
  ino = 5;
  versioned = true;
  size = 2;
  blocks = 1;
  version = 1;
  version_count = 1;
  latest_version_id = 1;
  last_version_time = 1000;
  version_pinned = false;
  version_handle = some 100;
}

-- at most ten versions, of any size
abbrev policy : Policy
policy = record {
  version_time_interval = 3600;
  version_retention_count = 10;
  version_retention_days = 30;
  version_max_versions = 10;
  version_expire_days = 30;
  version_retention_size_mb = 0;
  version_clean_interval = 3600;
}

abbrev tight_policy : Policy
tight_policy = record policy { version_retention_size_mb = 1 }

abbrev block : DataBlock
block = record {
  block_id = 3;
  buffer = some (7 ∷ 8 ∷ []);
  size = 2;
  compressed_size = 0;
  file_type = 0;
  hash = [];
  compression = 0;
  ref_count = 1;
  file_ino = 5;
  offset = 0;
  checksum = 0;
}

abbrev block_map : BlockMap
block_map = record { file_ino = 5; blocks = some block ∷ []; version_id = 1 }

abbrev call : Call
call = record { addr = 200; created = 2000; now = 2000; stamp = 2000; reason = none }

abbrev no_codec : Decompressor
no_codec algorithm bytes capacity = none

abbrev no_cache : Option (LruCache FileMeta)
no_cache = none

filled : AllFilled no_codec block_map.blocks
unfolding plain_bytes is_compressed
filled = (
  (λ bytes e. let same : 7 ∷ 8 ∷ [] ≡ bytes = cc in subst (λ bs. 0 < length bs) same (omega arith)),
  tt,
)

fresh : has 200 chain.nodes ≡ false
unfolding has
fresh = refl

abbrev new : VersionNode
new = created policy no_codec call block_map chain meta no_cache

within :
    IsWithin policy
      (pushed policy no_codec call block_map chain meta no_cache).count
      (total_stored (pushed policy no_codec call block_map chain meta no_cache).nodes)
unfolding push_version
within = (omega arith, inl refl)

abbrev result : VersionState
result = record {
  chain = pushed policy no_codec call block_map chain meta no_cache;
  meta = some (record_version new meta);
  cache = Option.map (cache_version call new (record_version new meta)) no_cache;
}

returned :
    version_manager_create_version policy no_codec call block_map chain meta no_cache
    ≡ some (result, record block_map { version_id = new.version_id })
returned = create_returns policy no_codec call block_map chain meta no_cache within

version_manager_create_version-older_example :
    IsValid result.chain
    × (has 200 result.chain.nodes ≡ true)
    × ((a : ℕ) → has_important a chain.nodes ≡ true → has_important a result.chain.nodes ≡ true)
    × ((a j : ℕ)
        → has a chain.nodes ≡ true
        → has a result.chain.nodes ≡ true
        → IsRoomy j (pushed policy no_codec call block_map chain meta no_cache).nodes
        → snapshot_get_block_data result.chain.nodes a j ≡ snapshot_get_block_data chain.nodes a j)
version_manager_create_version-older_example =
    version_manager_create_version-older policy no_codec call block_map chain meta no_cache
      chain-IsValid fresh filled (omega arith) result
      (record block_map { version_id = new.version_id }) returned

over :
    1048576 < total_stored (pushed tight_policy no_codec call block_map chain meta no_cache).nodes
unfolding total_stored push_version
over = omega arith

version_manager_create_version_frees_example :
    version_manager_create_version tight_policy no_codec call block_map chain meta no_cache ≡ none
version_manager_create_version_frees_example =
    version_manager_create_version_frees tight_policy no_codec call block_map chain meta no_cache
      chain-IsValid fresh filled (refl, tt) (omega arith) refl (omega arith) over
