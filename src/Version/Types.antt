-- ===== src/Version/Types.antt =====
-- The data of src/module_b/version_manager.c, from include/version_manager.h: a version with its
-- block snapshots, the chain of a file's versions, and the fields of a file's metadata that the
-- version manager reads and writes. A pointer to a version is its address; a buffer is the list of
-- its bytes; the `next` and `prev` links of a chain are the order of its list, the newest first.
use smartbackup_fs.Base.{ℕ, Bool, Option, none, some, List, [], ◌∷◌, ◌==◌, if◌then◌else◌}
use smartbackup_fs.Lru.{LruCache}

-- `version_block_snapshot_t`
pub record Snapshot : Type 0 where
  pub size : ℕ
  pub buffer : Option (List ℕ)
  pub has_data : Bool

-- `version_node_t`; `diff_count` is the length of `diff_blocks`
pub record VersionNode : Type 0 where
  pub addr : ℕ
  pub version_id : ℕ
  pub parent_id : ℕ
  pub parent : Option ℕ
  pub create_time : ℕ
  pub description : Option (List ℕ)
  pub is_important : Bool
  pub diff_blocks : List ℕ
  pub block_checksums : List ℕ
  pub block_count : ℕ
  pub file_size : ℕ
  pub blocks : ℕ
  pub snapshots : List Snapshot
  pub snapshot_count : ℕ
  pub stored_bytes : ℕ

-- `version_chain_t`
pub record VersionChain : Type 0 where
  pub file_ino : ℕ
  pub nodes : List VersionNode
  pub count : ℕ

-- `file_metadata_t`, as far as the version manager uses it; `versioned` says that the type is
-- FT_VERSIONED
pub record FileMeta : Type 0 where
  pub ino : ℕ
  pub versioned : Bool
  pub size : ℕ
  pub blocks : ℕ
  pub version : ℕ
  pub version_count : ℕ
  pub latest_version_id : ℕ
  pub last_version_time : ℕ
  pub version_pinned : Bool
  pub version_handle : Option ℕ

-- What a call works on: the chain, the metadata if the caller has it, and the cache of version
-- metadata if there is one.
pub record VersionState : Type 0 where
  pub chain : VersionChain
  pub meta : Option FileMeta
  pub cache : Option (LruCache FileMeta)

-- the version that a pointer points to
unfoldable pub find_version : ℕ → List VersionNode → Option VersionNode
find_version a [] = none
find_version a (n ∷ ns) = if n.addr == a then some n else find_version a ns

-- `chain->head`, as a pointer and as an id
abbrev pub head_addr : List VersionNode → Option ℕ
head_addr [] = none
head_addr (n ∷ ns) = some n.addr

abbrev pub head_id : List VersionNode → ℕ
head_id [] = 0
head_id (n ∷ ns) = n.version_id
