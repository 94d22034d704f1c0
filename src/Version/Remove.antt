-- ===== src/Version/Remove.antt =====
-- `version_remove_node_locked`: a version is unlinked from its chain; the version that inherits from
-- it gets its own copy of what it inherited, and its parent becomes the removed one's parent.
pub mod Fill
pub mod Laws
pub mod Kept
use smartbackup_fs.Base.{
  ℕ, zero, suc, ◌+◌, ◌-◌, ◌*◌, ◌%◌, ◌^◌, Option, none, some, List, [], ◌∷◌, Bool, true, false, ltb,
  ◌==◌, if◌then◌else◌, take,
}
use mathlib.Core.Option
use smartbackup_fs.Lru.{LruCache, lru_cache_remove}
use smartbackup_fs.Version.Types.{
  Snapshot, VersionNode, VersionChain, FileMeta, VersionState, find_version, head_id,
}
use smartbackup_fs.Version.Lookup.{BlockData, snapshot_get_block_data}

-- `(ino << 32) | (id & 0xffffffff)`, on 64 bits
abbrev pub version_key : ℕ → ℕ → ℕ
version_key ino id = ino * 2 ^ 32 % 2 ^ 64 + id % 2 ^ 32

-- The copy that an heir without data of its own gets, and what it adds to the stored bytes.
unfoldable pub copy_block : Option BlockData → Snapshot → Snapshot × ℕ
copy_block none s = (s, 0)
copy_block (some (bytes, sz)) s =
    if ltb 0 sz
    then (record { size = sz; buffer = some (take sz bytes); has_data = true }, sz)
    else (s, 0)

-- one round of the loop over an heir's blocks
unfoldable pub fill_block : Option BlockData → Snapshot → Snapshot × ℕ
fill_block r s = if s.has_data then (s, 0) else copy_block r s

-- the loop over the snapshots of an heir from the block `i` on
unfoldable pub fill_from : (ℕ → Option BlockData) → ℕ → List Snapshot → List Snapshot × ℕ
fill_from look i [] = ([], 0)
fill_from look i (s ∷ ss) =
    let (rest, added) = fill_from look (i + 1) ss in
    let (s', sz) = fill_block (look i) s in (s' ∷ rest, sz + added)

abbrev pub points_to : Option ℕ → ℕ → Bool
points_to none a = false
points_to (some b) a = b == a

abbrev pub id_of : List VersionNode → Option ℕ → ℕ
id_of nodes none = 0
id_of nodes (some a) = elim (find_version a nodes) [ none ↦ 0 | some n ↦ n.version_id ]

-- one round of the loop over the versions that stay on the chain
unfoldable pub adopt : List VersionNode → VersionNode → VersionNode → VersionNode × ℕ
adopt nodes del n =
    if points_to n.parent del.addr
    then (let (ss, added) = fill_from (snapshot_get_block_data nodes del.addr) 0 n.snapshots in
        (
          record n {
            snapshots = ss;
            stored_bytes = n.stored_bytes + added;
            parent = del.parent;
            parent_id = id_of nodes del.parent;
          },
          added,
        ))
    else (n, 0)

unfoldable pub adopt_all : List VersionNode → VersionNode → List VersionNode → List VersionNode × ℕ
adopt_all nodes del [] = ([], 0)
adopt_all nodes del (n ∷ ns) =
    let (n', added) = adopt nodes del n in
    let (ns', more) = adopt_all nodes del ns in (n' ∷ ns', added + more)

-- the links of `prev` and `next` joined over the version
unfoldable pub unlink : ℕ → List VersionNode → List VersionNode
unlink a [] = []
unlink a (n ∷ ns) = if n.addr == a then ns else n ∷ unlink a ns

abbrev pub count_removed : List VersionNode → VersionNode → FileMeta → FileMeta
count_removed nodes del m = record m {
  version_count = m.version_count - 1;
  latest_version_id =
      if m.latest_version_id == del.version_id then head_id nodes else m.latest_version_id;
}

-- The new state, and the bytes that were newly stored (`*added_bytes`).
pub version_remove_node_locked : VersionState → VersionNode → VersionState × ℕ
version_remove_node_locked s del =
    let nodes = s.chain.nodes in
    let (kept, added) = adopt_all nodes del (unlink del.addr nodes) in
    (
      record {
        chain = record s.chain { nodes = kept; count = s.chain.count - 1 };
        meta = Option.map (count_removed kept del) s.meta;
        cache =
            Option.map (λ c. (lru_cache_remove c (version_key s.chain.file_ino del.version_id)).1)
              s.cache;
      },
      added,
    )
