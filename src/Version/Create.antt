-- ===== src/Version/Create.antt =====
-- `version_manager_create_version`: a new version at the head of the chain, which stores the blocks
-- whose checksum differs from the parent's record; then retention, the metadata and the cache.
-- `predict_storage_usage_internal`, which is called last, only updates statistics and is left out.
pub mod Push
pub mod Laws
use smartbackup_fs.Base.{
  ℕ, zero, suc, ◌+◌, ◌*◌, ◌/◌, ◌%◌, ◌^◌, bit_xor, Bool, true, false, ◌||◌, not, Option, none, some,
  List, [], ◌∷◌, get_or, length, ltb, ◌==◌, if◌then◌else◌,
}
use mathlib.Core.Option
use smartbackup_fs.Block.{DataBlock, BlockMap, Decompressor, plain_bytes}
use smartbackup_fs.Lru.{LruCache, lru_cache_put}
use smartbackup_fs.Version.Types.{
  Snapshot, VersionNode, VersionChain, FileMeta, VersionState, find_version, head_addr, head_id,
}
use smartbackup_fs.Version.Remove.{version_key}
use smartbackup_fs.Version.Retention.{Policy, version_apply_retention_locked}

-- one round of the loop, on 32 bits
abbrev pub checksum_round : ℕ → ℕ → ℕ
checksum_round h c = bit_xor h ((h * 2 ^ 5 % 2 ^ 32 + c % 2 ^ 8 + h / 2 ^ 2 + 1315423911) % 2 ^ 32)

unfoldable pub checksum_from : ℕ → List ℕ → ℕ
checksum_from h [] = h
checksum_from h (c ∷ cs) = checksum_from (checksum_round h c) cs

-- An empty buffer has checksum 0, as has a null one.
unfoldable pub rolling_checksum : List ℕ → ℕ
unfolding checksum_from
rolling_checksum bytes = checksum_from 0 bytes

-- what the parent recorded for the block
unfoldable pub previous_checksum : Option VersionNode → ℕ → ℕ
previous_checksum none i = 0
previous_checksum (some p) i = if ltb i p.block_count then get_or p.block_checksums i 0 else 0

-- the outcome of one round of the loop over the blocks
pub record Taken : Type 0 where
  pub snapshot : Snapshot
  pub checksum : ℕ
  pub is_diff : Bool
  pub stored : ℕ

abbrev pub empty_snapshot : Snapshot
empty_snapshot = record { size = 0; buffer = none; has_data = false }

abbrev pub is_none {ℓ} : {A : Type ℓ} → Option A → Bool
is_none none = true
is_none (some _) = false

unfoldable pub take_block : Option VersionNode → ℕ → Option (List ℕ) → Taken
take_block parent i none = record {
  snapshot = empty_snapshot;
  checksum = 0;
  is_diff = false;
  stored = 0;
}
take_block parent i (some plain) =
    let cur = rolling_checksum plain in
    if not (cur == previous_checksum parent i) || is_none parent
    then record {
      snapshot = record { size = length plain; buffer = some plain; has_data = true };
      checksum = cur;
      is_diff = true;
      stored = length plain;
    }
    else record { snapshot = empty_snapshot; checksum = cur; is_diff = false; stored = 0 }

-- the version's tables so far, from the block `i` on
pub record Tables : Type 0 where
  pub snapshots : List Snapshot
  pub checksums : List ℕ
  pub diffs : List ℕ
  pub stored : ℕ

unfoldable pub take_blocks :
    Decompressor → Option VersionNode → ℕ → List (Option DataBlock) → Tables
take_blocks codec parent i [] = record { snapshots = []; checksums = []; diffs = []; stored = 0 }
take_blocks codec parent i (b ∷ bs) =
    let t = take_block parent i (plain_bytes codec b) in
    let rest = take_blocks codec parent (i + 1) bs in
    record {
      snapshots = t.snapshot ∷ rest.snapshots;
      checksums = t.checksum ∷ rest.checksums;
      diffs = if t.is_diff then i ∷ rest.diffs else rest.diffs;
      stored = t.stored + rest.stored;
    }

abbrev pub head : List VersionNode → Option VersionNode
head [] = none
head (n ∷ ns) = some n

-- What a call is given besides the chain and the metadata: the address that `calloc` returns, the
-- times of the two calls of `time(NULL)` and of the one in the cache, and the reason.
pub record Call : Type 0 where
  pub addr : ℕ
  pub created : ℕ
  pub now : ℕ
  pub stamp : ℕ
  pub reason : Option (List ℕ)

-- the filled-in `vn`
unfoldable pub new_version : Decompressor → Call → BlockMap → VersionChain → FileMeta → VersionNode
new_version codec c map chain m =
    let t = take_blocks codec (head chain.nodes) 0 map.blocks in
    record {
      addr = c.addr;
      version_id = head_id chain.nodes + 1;
      parent_id = head_id chain.nodes;
      parent = head_addr chain.nodes;
      create_time = c.created;
      description = c.reason;
      is_important = false;
      diff_blocks = t.diffs;
      block_checksums = t.checksums;
      block_count = length map.blocks;
      file_size = m.size;
      blocks = m.blocks;
      snapshots = t.snapshots;
      snapshot_count = length map.blocks;
      stored_bytes = t.stored;
    }

-- the new version at the head of the chain
unfoldable pub push_version : VersionNode → VersionChain → VersionChain
push_version vn chain = record chain { nodes = vn ∷ chain.nodes; count = chain.count + 1 }

abbrev pub record_version : VersionNode → FileMeta → FileMeta
record_version vn m = record m {
  version_count = m.version_count + 1;
  latest_version_id = vn.version_id;
  last_version_time = vn.create_time;
}

-- the copy of the metadata that is cached under the version's key
abbrev pub cache_version : Call → VersionNode → FileMeta → LruCache FileMeta → LruCache FileMeta
cache_version c vn m cache =
    let vmeta = record m { versioned = true; version_handle = some vn.addr } in
    (lru_cache_put cache (version_key m.ino vn.version_id) (some vmeta) c.stamp true).1

-- `none` is an access to a version that retention has freed.
pub finish : Call → VersionState → Option VersionState
finish c s = elim (find_version c.addr s.chain.nodes) [
  | none ↦ none
  | some vn ↦ elim s.meta [
    | none ↦ none
    | some m ↦
        let m' = record_version vn m in
        some (record s { meta = some m'; cache = Option.map (cache_version c vn m') s.cache })
  ]
]

-- The state after the call, and the block map with the id of its version.
pub version_manager_create_version :
    Policy
    → Decompressor
    → Call
    → BlockMap
    → VersionChain
    → FileMeta
    → Option (LruCache FileMeta)
    → Option (VersionState × BlockMap)
version_manager_create_version p codec c map chain m cache =
    let vn = new_version codec c map chain m in
    let s : VersionState = record { chain = push_version vn chain; meta = some m; cache = cache } in
    Option.map (λ t. (t, record map { version_id = vn.version_id }))
      (finish c (version_apply_retention_locked p s c.now))
