-- ===== src/Version/Retention.antt =====
-- `version_apply_retention_locked`: from the oldest version on, versions that are not marked as
-- important are removed while there are too many that are too old, or while they take too much
-- room. `now` is what `time(NULL)` gave to the caller.
pub mod Laws
pub mod Within
use smartbackup_fs.Base.{
  ℕ, ◌+◌, ◌-◌, ◌*◌, ◌%◌, ◌^◌, Bool, true, false, ◌&&◌, ◌||◌, not, Option, none, some, List, [], ◌∷◌,
  map, reverse, ltb, ◌==◌, if◌then◌else◌,
}
use smartbackup_fs.Version.Types.{VersionNode, VersionState, FileMeta, find_version}
use smartbackup_fs.Version.Remove.{version_remove_node_locked}

-- the fields of `fs_state` that set the policy
pub record Policy : Type 0 where
  pub version_time_interval : ℕ
  pub version_retention_count : ℕ
  pub version_retention_days : ℕ
  pub version_max_versions : ℕ
  pub version_expire_days : ℕ
  pub version_retention_size_mb : ℕ
  pub version_clean_interval : ℕ

-- `x ? x : y`
abbrev pub or_else : ℕ → ℕ → ℕ
or_else x y = if x == 0 then y else x

abbrev pub keep : Policy → ℕ
keep p = or_else p.version_max_versions p.version_retention_count

-- `expire_days * 24 * 3600`, which C computes on 32 bits
abbrev pub expire_seconds : Policy → ℕ
expire_seconds p = or_else p.version_expire_days p.version_retention_days * 24 * 3600 % 2 ^ 32

abbrev pub size_limit : Policy → ℕ
size_limit p = p.version_retention_size_mb * 1024 * 1024 % 2 ^ 64

unfoldable pub total_stored : List VersionNode → ℕ
total_stored [] = 0
total_stored (n ∷ ns) = n.stored_bytes + total_stored ns

-- whether a version goes, at a number of versions and their total size
unfoldable pub is_due : Policy → ℕ → ℕ → ℕ → VersionNode → Bool
is_due p now count total cur =
    (ltb (keep p) count && ltb (cur.create_time + expire_seconds p) now)
    || (not (size_limit p == 0) && ltb (size_limit p) total && ltb 1 count)

abbrev pub drop_bytes : ℕ → ℕ → ℕ
drop_bytes total stored = if ltb stored total then total - stored else 0

-- one round of the loop, at the version `cur`
unfoldable pub retention_step : Policy → ℕ → VersionState × ℕ → VersionNode → VersionState × ℕ
retention_step p now (s, total) cur =
    if cur.is_important
    then (s, total)
    else if is_due p now s.chain.count total cur
    then (let (s', added) = version_remove_node_locked s cur in
        (s', drop_bytes total cur.stored_bytes + added))
    else (s, total)

-- The loop `cur = cur->prev`. A removal changes no `prev` of the versions still to come, so the
-- order is the one in which the chain stood; each version is read as it is by then.
unfoldable pub retention_loop : Policy → ℕ → List ℕ → VersionState × ℕ → VersionState × ℕ
retention_loop p now [] st = st
retention_loop p now (a ∷ rest) st =
    retention_loop p now rest (elim (find_version a st.0.chain.nodes) [
      | none ↦ st
      | some cur ↦ retention_step p now st cur
    ])

abbrev pub is_pinned : Option FileMeta → Bool
is_pinned none = false
is_pinned (some m) = m.version_pinned

abbrev pub oldest_first : List VersionNode → List ℕ
oldest_first ns = reverse (map (λ n. n.addr) ns)

pub version_apply_retention_locked : Policy → VersionState → ℕ → VersionState
version_apply_retention_locked p s now =
    if is_pinned s.meta
    then s
    else (retention_loop p now (oldest_first s.chain.nodes) (s, total_stored s.chain.nodes)).0
