-- ===== src/Version/Manage.antt =====
-- Starting the version manager, and what the callers ask of it: periodic, manual and change-driven
-- versions, deleting a version and marking it as important.
pub mod Laws
pub mod Delete
use smartbackup_fs.Base.{
  ℕ, zero, suc, ◌+◌, ◌-◌, ◌*◌, ◌≤◌, Bool, true, false, ◌&&◌, ◌||◌, Option, none, some, List, [],
  ◌∷◌, length, ltb, leb, ◌==◌, if◌then◌else◌, Status, success, eperm, einval, enoent,
}
use smartbackup_fs.Block.{DataBlock, BlockMap, Decompressor, plain_bytes}
use smartbackup_fs.Lru.{LruCache}
use smartbackup_fs.HashTable.{Table, hash_table_create, hash_table_get, hash_table_set}
use smartbackup_fs.Version.Types.{VersionNode, VersionChain, VersionState, FileMeta}
use smartbackup_fs.Version.Remove.{version_remove_node_locked}
use smartbackup_fs.Version.Retention.{Policy}
use smartbackup_fs.Version.Create.{Call, rolling_checksum, version_manager_create_version}
use smartbackup_fs.Version.Query.{find_id, checksum_at}

abbrev pub default : ℕ → ℕ → ℕ
default x d = if x == 0 then d else x

-- the defaults of `version_manager_init`, in its order
pub set_defaults : Policy → Policy
set_defaults p =
    let interval = default p.version_time_interval 3600 in
    let count = default p.version_retention_count 10 in
    let days = default p.version_retention_days 30 in
    record {
      version_time_interval = interval;
      version_retention_count = count;
      version_retention_days = days;
      version_max_versions = default p.version_max_versions count;
      version_expire_days = default p.version_expire_days days;
      version_retention_size_mb = default p.version_retention_size_mb 1024;
      version_clean_interval = default p.version_clean_interval interval;
    }

-- `fs_state` as far as the version manager starts it: the table of chains, the policy and the
-- copies of it for the storage module
pub record Manager : Type 0 where
  pub versions_by_file : Table VersionChain
  pub policy : Policy
  pub max_versions : ℕ
  pub expire_days : ℕ

-- what is set up once the settings have their defaults
abbrev pub started : Policy → Manager
started q = record {
  versions_by_file = hash_table_create 4096;
  policy = q;
  max_versions = q.version_max_versions;
  expire_days = q.version_expire_days;
}

pub version_manager_init : Policy → Manager
version_manager_init p = started (set_defaults p)

abbrev pub empty_chain : ℕ → VersionChain
empty_chain ino = record { file_ino = ino; nodes = []; count = 0 }

-- the chain of a file, made if there is none
pub get_or_create_chain : Table VersionChain → ℕ → ℕ → VersionChain × Table VersionChain
get_or_create_chain table ino now =
    let (found, touched) = hash_table_get table ino now in
    elim found [
      | some chain ↦ (chain, touched)
      | none ↦ (empty_chain ino, (hash_table_set touched ino (some (empty_chain ino)) now true).1)
    ]

-- Whether a periodic version is due. An elapsed time below 0 is not due,
-- as the interval is positive.
unfoldable pub is_period_over : Policy → FileMeta → ℕ → Bool
is_period_over p m now =
    (m.last_version_time == 0)
    || leb (default p.version_time_interval 3600) (now - m.last_version_time)

abbrev pub periodic : List ℕ
periodic = 112 ∷ 101 ∷ 114 ∷ 105 ∷ 111 ∷ 100 ∷ 105 ∷ 99 ∷ []

abbrev pub manual : List ℕ
manual = 109 ∷ 97 ∷ 110 ∷ 117 ∷ 97 ∷ 108 ∷ []

abbrev pub reason_or : Option (List ℕ) → List ℕ → List ℕ
reason_or none d = d
reason_or (some r) d = r

-- "content-change"
abbrev pub content_change : List ℕ
content_change = 99 ∷ 111 ∷ 110 ∷ 116 ∷ 101 ∷ 110 ∷ 116 ∷ 45 ∷ 99 ∷ 104 ∷ 97 ∷ 110 ∷ 103 ∷ 101 ∷ []

abbrev pub current_checksum : Option (List ℕ) → ℕ
current_checksum none = 0
current_checksum (some plain) = rolling_checksum plain

-- the blocks from `i` on whose checksum is not the one recorded
unfoldable pub count_changed : Decompressor → (ℕ → ℕ) → ℕ → List (Option DataBlock) → ℕ
count_changed codec recorded i [] = 0
count_changed codec recorded i (b ∷ bs) =
    let rest = count_changed codec recorded (i + 1) bs in
    if current_checksum (plain_bytes codec b) == recorded i then rest else rest + 1

-- `(double) diffcnt / block_count > 0.10`, exact below 2 ^ 49 blocks
abbrev pub is_over_tenth : ℕ → ℕ → Bool
is_over_tenth diffcnt block_count = ltb block_count (diffcnt * 10)

abbrev pub is_empty {ℓ} : {A : Type ℓ} → List A → Bool
is_empty [] = true
is_empty (x ∷ xs) = false

-- whether a version is created for the change; `recorded` are the head's checksums
unfoldable pub is_changed : Decompressor → (ℕ → ℕ) → List (Option DataBlock) → Bool
is_changed codec recorded blocks =
    if is_empty blocks
    then false
    else is_over_tenth (count_changed codec recorded 0 blocks) (length blocks)

-- what a creating call works on besides the policy
module _ (p : Policy) (codec : Decompressor) (c : Call) (map : BlockMap) (chain : VersionChain)
    (m : FileMeta) (cache : Option (LruCache FileMeta)) where
  -- nothing is created
  abbrev pub unchanged : Option (VersionState × BlockMap)
  unchanged = some (record { chain = chain; meta = some m; cache = cache }, map)

  abbrev pub create_for : List ℕ → Option (VersionState × BlockMap)
  create_for reason =
      version_manager_create_version p codec (record c { reason = some reason }) map chain m cache

  -- `at` is the time that this function reads before it calls.
  abbrev pub version_manager_create_periodic :
      ℕ → Option (List ℕ) → Option (VersionState × BlockMap)
  version_manager_create_periodic at reason =
      if is_period_over p m at then create_for (reason_or reason periodic) else unchanged

  abbrev pub version_manager_create_manual : Option (List ℕ) → Option (VersionState × BlockMap)
  version_manager_create_manual reason = create_for (reason_or reason manual)

  abbrev pub version_manager_maybe_change_snapshot : Option (VersionState × BlockMap)
  version_manager_maybe_change_snapshot = elim chain.nodes [
    | [] ↦ unchanged
    | head ∷ older ↦
        if is_changed codec (checksum_at head) map.blocks
        then create_for content_change
        else unchanged
  ]

-- What the chain, the metadata and the cache are after the call, and its result.
unfoldable pub version_manager_delete_version :
    ℕ → Option VersionState → Status × Option VersionState
version_manager_delete_version version_id s = if version_id == 0 then (einval, s) else elim s [
  | none ↦ (enoent, none)
  | some st ↦ elim (find_id version_id st.chain.nodes) [
    | none ↦ (enoent, some st)
    | some cur ↦
        if cur.is_important
        then (eperm, some st)
        else (success, some (version_remove_node_locked st cur).0)
  ]
]

unfoldable pub mark : ℕ → Bool → List VersionNode → List VersionNode
mark id important [] = []
mark id important (n ∷ ns) =
    if n.version_id == id
    then record n { is_important = important } ∷ ns
    else n ∷ mark id important ns

unfoldable pub version_manager_mark_important :
    ℕ → Bool → Option VersionChain → Status × Option VersionChain
version_manager_mark_important id important none = (enoent, none)
version_manager_mark_important id important (some chain) = elim (find_id id chain.nodes) [
  | none ↦ (enoent, some chain)
  | some n ↦ (success, some (record chain { nodes = mark id important chain.nodes }))
]
