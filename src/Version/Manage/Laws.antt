-- ===== src/Version/Manage/Laws.antt =====
-- What the operations of the version manager guarantee: the defaults, the chain of a file, deletion
-- and the important versions.
use smartbackup_fs.Base.{
  ◌⊎◌, ℕ, ◌<◌, ◌≡◌, ◌≢◌, refl, sym, ap, ◌∙◌, Option, none, some, List, [], ◌∷◌, true, false, Bool,
  ◌==◌, inl, inr, Bool-cases, Option-cases, arith, success, eperm,
}
use smartbackup_fs.HashTable.{Table, hash_table_get}
use smartbackup_fs.HashTable.Buckets.{IsValid, view}
use smartbackup_fs.HashTable.Laws.{hash_table_get-Models, hash_table_set-Models}
use smartbackup_fs.Version.Types.{VersionNode, VersionChain, VersionState}
use smartbackup_fs.Version.Retention.{Policy, keep}
use smartbackup_fs.Version.Query.{find_id}
use smartbackup_fs.Version.Manage.{
  default, set_defaults, started, version_manager_init, empty_chain, get_or_create_chain, mark,
  version_manager_delete_version, version_manager_mark_important,
}

default_pos : (x d : ℕ) → 0 < d → 0 < default x d
default_pos x d h = ground arith

default_stable : (x d : ℕ) → 0 < x → default x d ≡ x
default_stable x d h = ground arith

keep_max : (p : Policy) → 0 < p.version_max_versions → keep p ≡ p.version_max_versions
keep_max p h = ground arith

-- every setting is positive
pub record IsConfigured (p : Policy) : Type 0 where
  pub interval : 0 < p.version_time_interval
  pub count : 0 < p.version_retention_count
  pub days : 0 < p.version_retention_days
  pub most : 0 < p.version_max_versions
  pub expiry : 0 < p.version_expire_days
  pub size : 0 < p.version_retention_size_mb
  pub clean : 0 < p.version_clean_interval

set_defaults-IsConfigured : (p : Policy) → IsConfigured (set_defaults p)
unfolding set_defaults
set_defaults-IsConfigured p =
    let interval = default_pos p.version_time_interval 3600 (omega arith) in
    let count = default_pos p.version_retention_count 10 (omega arith) in
    let days = default_pos p.version_retention_days 30 (omega arith) in
    record {
      interval = interval;
      count = count;
      days = days;
      most = default_pos p.version_max_versions _ count;
      expiry = default_pos p.version_expire_days _ days;
      size = default_pos p.version_retention_size_mb 1024 (omega arith);
      clean = default_pos p.version_clean_interval _ interval;
    }

set_defaults_stable : (p : Policy) → IsConfigured p → set_defaults p ≡ p
unfolding set_defaults
set_defaults_stable p v =
    rw
      (
        default_stable p.version_time_interval 3600 v.interval,
        default_stable p.version_retention_count 10 v.count,
        default_stable p.version_retention_days 30 v.days,
        default_stable p.version_max_versions p.version_retention_count v.most,
        default_stable p.version_expire_days p.version_retention_days v.expiry,
        default_stable p.version_retention_size_mb 1024 v.size,
        default_stable p.version_clean_interval p.version_time_interval v.clean,
      )
      refl

-- a setting that is 0 gets the default, and any other stays
abbrev pub IsDefaulted : ℕ → ℕ → ℕ → Type 0
IsDefaulted x d y = ((x ≡ 0) × (y ≡ d)) ⊎ ((0 < x) × (y ≡ x))

default-IsDefaulted : (x d : ℕ) → IsDefaulted x d (default x d)
default-IsDefaulted x d = elim (Bool-cases (x == 0)) [
  | inl e ↦ inl (ground arith)
  | inr e ↦ inr (ground arith)
]

-- the settings `p`, with the defaults of `version_manager_init`
pub record AreDefaults (p q : Policy) : Type 0 where
  pub hourly : IsDefaulted p.version_time_interval 3600 q.version_time_interval
  pub ten : IsDefaulted p.version_retention_count 10 q.version_retention_count
  pub month : IsDefaulted p.version_retention_days 30 q.version_retention_days
  pub as_kept : IsDefaulted p.version_max_versions q.version_retention_count q.version_max_versions
  pub as_old : IsDefaulted p.version_expire_days q.version_retention_days q.version_expire_days
  pub gigabyte : IsDefaulted p.version_retention_size_mb 1024 q.version_retention_size_mb
  pub as_often :
      IsDefaulted p.version_clean_interval q.version_time_interval q.version_clean_interval

set_defaults-AreDefaults : (p : Policy) → AreDefaults p (set_defaults p)
unfolding set_defaults
set_defaults-AreDefaults p = record {
  hourly = default-IsDefaulted p.version_time_interval 3600;
  ten = default-IsDefaulted p.version_retention_count 10;
  month = default-IsDefaulted p.version_retention_days 30;
  as_kept = default-IsDefaulted p.version_max_versions _;
  as_old = default-IsDefaulted p.version_expire_days _;
  gigabyte = default-IsDefaulted p.version_retention_size_mb 1024;
  as_often = default-IsDefaulted p.version_clean_interval _;
}

-- After the start every setting is positive, the number of versions to keep is the copy that the
-- storage module sees, and starting again with these settings gives the same. A setting that was not 0
-- stays. One that was 0 gets its default: an hour between versions and between clean-ups or what the
-- interval is, 10 versions, 30 days, the same as the most versions and the days until they expire, and
-- 1024 MB, also where 0 stood for no limit.
pub version_manager_init-IsConfigured :
    (p : Policy)
    → IsConfigured (version_manager_init p).policy
      × ((version_manager_init p).max_versions ≡ keep (version_manager_init p).policy)
      × (version_manager_init (version_manager_init p).policy ≡ version_manager_init p)
      × AreDefaults p (version_manager_init p).policy
unfolding version_manager_init
version_manager_init-IsConfigured p =
    let v = set_defaults-IsConfigured p in
    (
      v,
      sym (keep_max (set_defaults p) v.most),
      ap started (set_defaults_stable (set_defaults p) v),
      set_defaults-AreDefaults p,
    )

mark-find_id :
    (id : ℕ) (important : Bool) (ns : List VersionNode) (n : VersionNode)
    → find_id id ns ≡ some n
    → find_id id (mark id important ns) ≡ some (record n { is_important = important })
unfolding mark find_id
mark-find_id id important [] n h = absurd (cc)
mark-find_id id important (m ∷ ns) n h = elim (Bool-cases (m.version_id == id)) [
  | inl e ↦
      (let found : some m ≡ some n = rw (e, find_id) at h in
        let same : m ≡ n = cc in
        let marked : VersionNode → Option VersionNode =
          λ k. some (record k { is_important = important }) in
        rw (e, mark) (rw (e, find_id) (ap marked same)))
  | inr e ↦
      (let rest : find_id id ns ≡ some n = rw (e, find_id) at h in
        rw (e, mark) (rw (e, find_id) (mark-find_id id important ns n rest)))
]

-- The first call for a file makes an empty chain; every later call gives the chain that the table
-- holds. A well-formed table stays well formed, and the other files' chains stay.
pub get_or_create_chain-view :
    (t : Table VersionChain) (ino now : ℕ)
    → IsValid t
    → let (chain, t') = get_or_create_chain t ino now in
      IsValid t'
      × (view t' ino ≡ some chain)
      × ((view t ino ≡ none) → chain ≡ empty_chain ino)
      × ((c : VersionChain) → view t ino ≡ some c → chain ≡ c)
      × ((q : ℕ) → q ≢ ino → view t' q ≡ view t q)
unfolding get_or_create_chain
get_or_create_chain-view t ino now v =
    let got = hash_table_get-Models v ino now in
    let t1 = (hash_table_get t ino now).1 in
    elim (Option-cases (hash_table_get t ino now).0) [
      | inr (chain, e) ↦
          (let there : view t ino ≡ some chain = sym got.0 ∙ e in
            rw (e, get_or_create_chain)
              (
                got.1.valid,
                got.1.reads ino ∙ there,
                λ lacks. absurd (cc),
                λ c has. (let same : some chain ≡ some c = sym there ∙ has in cc),
                λ q ne. got.1.reads q,
              ))
      | inl e ↦
          (let missing : view t ino ≡ none = sym got.0 ∙ e in
            let set = (hash_table_set-Models got.1.valid ino (empty_chain ino) now).1 in
            rw (e, get_or_create_chain)
              (
                set.valid,
                set.reads ino ∙ (ground arith),
                λ lacks. refl,
                λ c has. absurd (cc),
                λ q ne. set.reads q ∙ (ground (arith, got.1.reads q)),
              ))
    ]

-- A version that is marked as important is not deleted: the call is refused and changes nothing.
pub mark_important-delete_version :
    (s : VersionState) (id : ℕ) (chain : VersionChain)
    → 0 < id
    → version_manager_mark_important id true (some s.chain) ≡ (success, some chain)
    → version_manager_delete_version id (some (record s { chain = chain }))
      ≡ (eperm, some (record s { chain = chain }))
unfolding version_manager_delete_version version_manager_mark_important
mark_important-delete_version s id chain pos h = elim (Option-cases (find_id id s.chain.nodes)) [
  | inl e ↦ absurd (cc (ap (λ r. r.0) (rw (e, version_manager_mark_important) at h)))
  | inr (n, e) ↦
      (let marked : some (record s.chain { nodes = mark id true s.chain.nodes }) ≡ some chain =
          ap (λ r. r.1) (rw (e, version_manager_mark_important) at h) in
        let same : record s.chain { nodes = mark id true s.chain.nodes } ≡ chain = cc in
        let asked : (id == 0) ≡ false = ground arith in
        let found : find_id id chain.nodes ≡ some (record n { is_important = true }) =
          ap (λ c. find_id id c.nodes) (sym same) ∙ mark-find_id id true s.chain.nodes n e in
        rw (asked, found, version_manager_delete_version) refl)
]
