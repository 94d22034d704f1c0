-- ===== src/Tests/Versions.antt =====
-- Inputs for the version manager (src/module_b/version_manager.c): a chain of two versions, of which
-- the older one is marked as important.
use smartbackup_fs.Base.{
  ℕ, ◌-◌, ◌≤◌, ◌≡◌, refl, List, [], ◌∷◌, none, some, true, false, min, success, eperm, arith,
}
use smartbackup_fs.Version.Types.{
  Snapshot, VersionNode, VersionChain, VersionState, FileMeta, find_version,
}
use smartbackup_fs.Version.Lookup.{snapshot_get_block_data}
use smartbackup_fs.Version.Lookup.Laws.{has, block_of, snapshot_get_block_data-resolve}
use smartbackup_fs.Version.Remove.{version_remove_node_locked}
use smartbackup_fs.Version.Remove.Laws.{Covers}
use smartbackup_fs.Version.Remove.Kept.{
  IsValid, after, version_remove_node_locked-IsValid, version_remove_node_locked-reads,
}
use smartbackup_fs.Version.Retention.{Policy, version_apply_retention_locked}
use smartbackup_fs.Version.Retention.Laws.{Keeps, version_apply_retention_locked-Keeps}
use smartbackup_fs.Version.Read.{ReadResult, look_up, version_manager_read_version_data}
use smartbackup_fs.Version.Read.Image.{byte_at, image}
use smartbackup_fs.Version.Read.Laws.{version_manager_read_version_data-image}
use smartbackup_fs.Version.Query.{
  best_before, find_id, select_version, version_manager_get_version_by_time,
}
use smartbackup_fs.Version.Query.Laws.{
  Among, select_version-by_time, version_manager_get_version_by_time-newest,
}
use smartbackup_fs.Version.Manage.{
  mark, version_manager_delete_version, version_manager_init, version_manager_mark_important,
}
use smartbackup_fs.Version.Retention.{keep}
use smartbackup_fs.Version.Manage.Laws.{
  IsConfigured, AreDefaults, mark_important-delete_version, version_manager_init-IsConfigured,
}
use smartbackup_fs.Version.Manage.Delete.{Deleted, version_manager_delete_version-removes}

abbrev stored : List ℕ → Snapshot
stored bytes = record { size = 2; buffer = some bytes; has_data = true }

abbrev inherited : Snapshot
inherited = record { size = 0; buffer = none; has_data = false }

abbrev oldest : VersionNode
oldest = record {
  addr = 100;
  version_id = 1;
  parent_id = 0;
  parent = none;
  create_time = 1000;
  description = none;
  is_important = true;
  diff_blocks = 0 ∷ 1 ∷ [];
  block_checksums = 11 ∷ 12 ∷ [];
  block_count = 2;
  file_size = 4;
  blocks = 1;
  snapshots = stored (1 ∷ 2 ∷ []) ∷ stored (3 ∷ 4 ∷ []) ∷ [];
  snapshot_count = 2;
  stored_bytes = 4;
}

abbrev newest : VersionNode
newest = record {
  addr = 200;
  version_id = 2;
  parent_id = 1;
  parent = some 100;
  create_time = 2000;
  description = none;
  is_important = false;
  diff_blocks = 0 ∷ [];
  block_checksums = 21 ∷ 12 ∷ [];
  block_count = 2;
  file_size = 4;
  blocks = 1;
  snapshots = stored (7 ∷ 8 ∷ []) ∷ inherited ∷ [];
  snapshot_count = 2;
  stored_bytes = 2;
}

abbrev pub nodes : List VersionNode
nodes = newest ∷ oldest ∷ []

abbrev chain : VersionChain
chain = record { file_ino = 5; nodes = nodes; count = 2 }

chain-IsValid : IsValid chain
unfolding has
chain-IsValid = record {
  linked = (
    refl,
    refl,
    refl,
    ((λ _. (7 ∷ 8 ∷ [], refl, refl, omega arith)), ((λ e. absurd (cc)), tt)),
    (
      refl,
      refl,
      refl,
      (
        (λ _. (1 ∷ 2 ∷ [], refl, refl, omega arith)),
        ((λ _. (3 ∷ 4 ∷ [], refl, refl, omega arith)), tt),
      ),
      tt,
    ),
  );
  descending = (omega arith, (omega arith, tt));
  counted = refl;
}

abbrev meta : FileMeta
meta = record {
  ino = 5;
  versioned = true;
  size = 4;
  blocks = 1;
  version = 2;
  version_count = 2;
  latest_version_id = 2;
  last_version_time = 2000;
  version_pinned = false;
  version_handle = some 200;
}

abbrev state : VersionState
state = record { chain = chain; meta = some meta; cache = none }

has_newest : has 200 nodes ≡ true
unfolding has
has_newest = refl

has_oldest : has 100 nodes ≡ true
unfolding has
has_oldest = refl

found_newest : find_version 200 nodes ≡ some newest
unfolding find_version
found_newest = refl

found_oldest : find_version 100 nodes ≡ some oldest
unfolding find_version
found_oldest = refl

snapshot_get_block_data-resolve_example : snapshot_get_block_data nodes 200 1 ≡ block_of nodes 200 1
snapshot_get_block_data-resolve_example =
    snapshot_get_block_data-resolve nodes 200 1 chain-IsValid.linked has_newest

version_remove_node_locked-IsValid_example : IsValid (after state oldest)
version_remove_node_locked-IsValid_example =
    version_remove_node_locked-IsValid state oldest chain-IsValid found_oldest

covers : Covers 100 1 nodes
covers = ((λ _. omega arith), ((λ e. absurd (cc)), tt))

version_remove_node_locked-reads_example :
    snapshot_get_block_data (after state oldest).nodes 200 1 ≡ snapshot_get_block_data nodes 200 1
version_remove_node_locked-reads_example =
    version_remove_node_locked-reads state oldest chain-IsValid found_oldest 200 1
      (λ e. absurd (omega arith)) has_newest covers

abbrev policy : Policy
policy = record {
  version_time_interval = 3600;
  version_retention_count = 1;
  version_retention_days = 1;
  version_max_versions = 1;
  version_expire_days = 1;
  version_retention_size_mb = 1;
  version_clean_interval = 3600;
}

version_apply_retention_locked-Keeps_example :
    Keeps chain (version_apply_retention_locked policy state 1000000).chain
version_apply_retention_locked-Keeps_example =
    version_apply_retention_locked-Keeps policy 1000000 (omega arith) state chain-IsValid

version_manager_read_version_data-image_example :
    version_manager_read_version_data 2 nodes (some meta) 10 1
    ≡ ReadResult.bytes (image (byte_at 2 (look_up nodes newest)) 1 (min 10 (4 - 1)))
version_manager_read_version_data-image_example =
    version_manager_read_version_data-image 2 nodes meta 200 newest 10 1 (omega arith)
      chain-IsValid.linked refl found_newest

version_manager_get_version_by_time-newest_example :
    (m : VersionNode) × Among m nodes
    × (m.create_time ≤ 1500)
    × (1000 ≤ m.create_time)
    × (version_manager_get_version_by_time (some chain) 1500 ≡ m.version_id)
version_manager_get_version_by_time-newest_example =
    version_manager_get_version_by_time-newest chain 1500 oldest (omega arith) (1, refl)
      (omega arith) (omega arith)

selected : select_version 0 1500 nodes ≡ some oldest
unfolding select_version best_before
selected = refl

select_version-by_time_example :
    (k : VersionNode) × Among k nodes
    × (version_manager_get_version_by_time (some chain) 1500 ≡ k.version_id)
    × (k.create_time ≡ 1000)
select_version-by_time_example =
    select_version-by_time chain 1500 oldest (omega arith) selected (omega arith)

abbrev SameCount : ℕ → ℕ → Type 0
SameCount a b = a ≡ b

version_manager_init-IsConfigured_example :
    IsConfigured (version_manager_init policy).policy
    × ((version_manager_init policy).max_versions ≡ keep (version_manager_init policy).policy)
    × (version_manager_init (version_manager_init policy).policy ≡ version_manager_init policy)
    × AreDefaults policy (version_manager_init policy).policy
version_manager_init-IsConfigured_example = version_manager_init-IsConfigured policy

marked :
    version_manager_mark_important 2 true (some chain)
    ≡ (success, some (record chain { nodes = record newest { is_important = true } ∷ oldest ∷ [] }))
unfolding version_manager_mark_important mark find_id
marked = refl

mark_important-delete_version_example :
    version_manager_delete_version 2 (
      some (record state {
        chain = record chain { nodes = record newest { is_important = true } ∷ oldest ∷ [] };
      }))
    ≡ (
      eperm,
      some (record state {
        chain = record chain { nodes = record newest { is_important = true } ∷ oldest ∷ [] };
      }),
    )
mark_important-delete_version_example =
    mark_important-delete_version state 2
      (record chain { nodes = record newest { is_important = true } ∷ oldest ∷ [] }) (omega arith)
      marked

-- the older version no longer important, so that it can be deleted
abbrev plain_state : VersionState
plain_state = record state {
  chain = record chain { nodes = newest ∷ record oldest { is_important = false } ∷ [] };
}

abbrev after_delete : VersionState
after_delete = (version_remove_node_locked plain_state (record oldest { is_important = false })).0

deletes : version_manager_delete_version 1 (some plain_state) ≡ (success, some after_delete)
unfolding version_manager_delete_version find_id
deletes = refl

plain-IsValid : IsValid plain_state.chain
unfolding has
plain-IsValid = record {
  linked = chain-IsValid.linked;
  descending = (omega arith, (omega arith, tt));
  counted = refl;
}

version_manager_delete_version-removes_example :
    (del : VersionNode) × Deleted 1 plain_state del after_delete
version_manager_delete_version-removes_example =
    version_manager_delete_version-removes 1 plain_state after_delete plain-IsValid deletes
