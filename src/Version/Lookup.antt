-- ===== src/Version/Lookup.antt =====
-- `snapshot_get_block_data`: the data of a block of a version, found in the version itself or in
-- the nearest ancestor that stores it.
pub mod Laws
use smartbackup_fs.Base.{
  ℕ, zero, suc, Option, none, some, List, [], ◌∷◌, get_elem?, ltb, if◌then◌else◌, length,
}
use smartbackup_fs.Version.Types.{Snapshot, VersionNode, find_version}

-- a block's bytes and size, as they go through `*data` and `*size`
abbrev pub BlockData : Type 0
BlockData = List ℕ × ℕ

-- `snap->has_data && snap->data`
unfoldable pub held : Snapshot → Option BlockData
held s =
    if s.has_data then (elim s.buffer [ none ↦ none | some bytes ↦ some (bytes, s.size) ]) else none

unfoldable pub held_at : List Snapshot → ℕ → Option BlockData
held_at ss i = elim (get_elem? ss i) [ none ↦ none | some s ↦ held s ]

-- what the version itself stores of a block
unfoldable pub own_data : VersionNode → ℕ → Option BlockData
own_data n i = if ltb i n.snapshot_count then held_at n.snapshots i else none

-- The loop `while (cur)` up the parent pointers, on fuel; `nodes` are the versions in memory.
unfoldable pub climb : ℕ → List VersionNode → Option ℕ → ℕ → Option BlockData
climb zero nodes cur i = none
climb (suc fuel) nodes none i = none
climb (suc fuel) nodes (some a) i = elim (find_version a nodes) [
  | none ↦ none
  | some n ↦ elim (own_data n i) [ some r ↦ some r | none ↦ climb fuel nodes n.parent i ]
]

-- No parent chain is longer than the number of versions.
unfoldable pub snapshot_get_block_data : List VersionNode → ℕ → ℕ → Option BlockData
snapshot_get_block_data nodes a i = climb (suc (length nodes)) nodes (some a) i
