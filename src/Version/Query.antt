-- ===== src/Version/Query.antt =====
-- The version manager's queries: time expressions, the version that a name or a time selects, the
-- list of versions and the difference of two. `chain` is what `versions_by_file` holds for the file.
-- `strtol`, `localtime_r`, `mktime` and the formatting of a line are parameters. Strings are lists
-- of character codes; times are seconds since 1970.
pub mod Laws
use smartbackup_fs.Base.{
  ℕ, zero, suc, ◌+◌, ◌-◌, ◌*◌, Bool, true, false, ◌&&◌, not, Option, none, some, List, [], ◌∷◌,
  ◌++◌, take, drop, replicate, length, map, get_or, ltb, leb, ◌==◌, if◌then◌else◌, Status, success,
  einval, enoent,
}
use smartbackup_fs.Lru.{LruCache, lru_cache_get, lru_cache_put}
use smartbackup_fs.Version.Types.{VersionNode, VersionChain, FileMeta, head_id}
use smartbackup_fs.Version.Remove.{version_key}

-- `strcmp(a, b) == 0`
unfoldable pub same_text : List ℕ → List ℕ → Bool
same_text [] [] = true
same_text [] (y ∷ ys) = false
same_text (x ∷ xs) [] = false
same_text (x ∷ xs) (y ∷ ys) = (x == y) && same_text xs ys

-- The C library: the value that `strtol` reads, 0 if it is not positive; and the start of the day
-- so many days before the one of a time.
pub record Clib : Type 0 where
  pub strtol : List ℕ → ℕ
  pub day_start : ℕ → ℕ → ℕ

abbrev pub yesterday : List ℕ
yesterday = 121 ∷ 101 ∷ 115 ∷ 116 ∷ 101 ∷ 114 ∷ 100 ∷ 97 ∷ 121 ∷ []

abbrev pub today : List ℕ
today = 116 ∷ 111 ∷ 100 ∷ 97 ∷ 121 ∷ []

abbrev pub latest : List ℕ
latest = 108 ∷ 97 ∷ 116 ∷ 101 ∷ 115 ∷ 116 ∷ []

-- the seconds of a unit: `s`, `h`, `d` or `w`
unfoldable pub unit_seconds : ℕ → Option ℕ
unit_seconds unit =
    if unit == 115
    then some 1
    else if unit == 104
    then some 3600
    else if unit == 100
    then some (24 * 3600)
    else if unit == 119
    then some (7 * 24 * 3600)
    else none

-- the number before the unit, which must fit into the buffer
abbrev pub number_text : List ℕ → List ℕ
number_text expr = if ltb (length expr - 1) 32 then take (length expr - 1) expr else []

unfoldable pub before_now : ℕ → ℕ → Option ℕ → ℕ
before_now now val none = 0
before_now now val (some seconds) = if val == 0 then 0 else now - val * seconds

-- A time before 1970 is 0 here, which no version's time reaches either.
abbrev pub version_manager_parse_time_expr : Clib → ℕ → Option (List ℕ) → ℕ
version_manager_parse_time_expr lib now none = 0
version_manager_parse_time_expr lib now (some expr) =
    if length expr == 0
    then 0
    else if same_text expr yesterday
    then lib.day_start 1 now
    else if same_text expr today
    then lib.day_start 0 now
    else before_now now (lib.strtol (number_text expr))
        (unit_seconds (get_or expr (length expr - 1) 0))

unfoldable pub find_id : ℕ → List VersionNode → Option VersionNode
find_id id [] = none
find_id id (n ∷ ns) = if n.version_id == id then some n else find_id id ns

-- the id that a name asks for, and the time
unfoldable pub want_of : Clib → List VersionNode → List ℕ → ℕ
want_of lib nodes verstr =
    if same_text verstr latest
    then head_id nodes
    else if get_or verstr 0 0 == 118
    then lib.strtol (drop 1 verstr)
    else 0

unfoldable pub target_of : Clib → ℕ → List ℕ → ℕ
target_of lib now verstr =
    if same_text verstr latest
    then 0
    else if get_or verstr 0 0 == 118
    then 0
    else version_manager_parse_time_expr lib now (some verstr)

abbrev pub is_better : VersionNode → Option VersionNode → Bool
is_better n none = true
is_better n (some best) = ltb best.create_time n.create_time

-- the loop's `best_time` at the end of the chain
unfoldable pub best_before : ℕ → List VersionNode → Option VersionNode → Option VersionNode
best_before target [] best = best
best_before target (n ∷ ns) best =
    best_before target ns (if leb n.create_time target && is_better n best then some n else best)

-- the version that a name selects
unfoldable pub select_version : ℕ → ℕ → List VersionNode → Option VersionNode
select_version want target nodes = elim (if want == 0 then none else find_id want nodes) [
  | some n ↦ some n
  | none ↦ if target == 0 then none else best_before target nodes none
]

-- the metadata of the file at the version
unfoldable pub version_meta : FileMeta → VersionNode → FileMeta
version_meta m vn = record m {
  versioned = true;
  version = vn.version_id;
  size = vn.file_size;
  blocks = vn.blocks;
  version_handle = some vn.addr;
}

-- what the cache gives or is given, for the version; `stamp` is the cache's time
unfoldable pub cached_meta :
    FileMeta
    → VersionNode
    → Option (LruCache FileMeta)
    → ℕ
    → Option FileMeta × Option (LruCache FileMeta)
cached_meta m vn none stamp = (some (version_meta m vn), none)
cached_meta m vn (some cache) stamp =
    let key = version_key m.ino vn.version_id in
    let (hit, touched) = lru_cache_get cache key stamp in
    elim hit [
      | some cached ↦ (some cached, some touched)
      | none ↦ (
        some (version_meta m vn),
        some (lru_cache_put touched key (some (version_meta m vn)) stamp true).1,
      )
    ]

abbrev pub version_manager_get_version_meta :
    Clib
    → ℕ
    → ℕ
    → Option VersionChain
    → FileMeta
    → Option (LruCache FileMeta)
    → List ℕ
    → Option FileMeta × Option (LruCache FileMeta)
version_manager_get_version_meta lib now stamp none m cache verstr = (none, cache)
version_manager_get_version_meta lib now stamp (some chain) m cache verstr =
    elim (select_version (want_of lib chain.nodes verstr) (target_of lib now verstr) chain.nodes) [
      | none ↦ (none, cache)
      | some vn ↦ cached_meta m vn cache stamp
    ]

-- one round of the loop, on `best` and `best_time`
abbrev pub nearer : ℕ → ℕ × ℕ → VersionNode → ℕ × ℕ
nearer target (best, best_time) n =
    if leb n.create_time target && leb best_time n.create_time
    then (n.version_id, n.create_time)
    else (best, best_time)

unfoldable pub nearest : ℕ → List VersionNode → ℕ × ℕ → ℕ × ℕ
nearest target [] acc = acc
nearest target (n ∷ ns) acc = nearest target ns (nearer target acc n)

pub version_manager_get_version_by_time : Option VersionChain → ℕ → ℕ
version_manager_get_version_by_time none target = 0
version_manager_get_version_by_time (some chain) target =
    if target == 0 then 0 else (nearest target chain.nodes (0, 0)).0

-- The rows of the list, null pointers after the last version if the count is larger.
abbrev pub version_manager_list_versions :
    (ℕ → ℕ → Option (List ℕ) → List ℕ) → Option VersionChain → List (Option (List ℕ))
version_manager_list_versions line none = []
version_manager_list_versions line (some chain) =
    take chain.count (map (λ n. some (line n.version_id n.create_time n.description)) chain.nodes)
    ++ replicate (chain.count - length chain.nodes) none

-- the checksum of a block, 0 past the last
abbrev pub checksum_at : VersionNode → ℕ → ℕ
checksum_at n i = if ltb i n.block_count then get_or n.block_checksums i 0 else 0

-- the blocks from `i` on, of which `n` are left, that differ
unfoldable pub count_diffs : ℕ → VersionNode → VersionNode → ℕ → ℕ
count_diffs zero a b i = 0
count_diffs (suc n) a b i =
    let rest = count_diffs n a b (i + 1) in
    if checksum_at a i == checksum_at b i then rest else rest + 1

-- the last version of the chain with the id, which the loop keeps
unfoldable pub find_last : ℕ → List VersionNode → Option VersionNode
find_last id [] = none
find_last id (n ∷ ns) = elim (find_last id ns) [
  | some m ↦ some m
  | none ↦ if n.version_id == id then some n else none
]

abbrev pub larger : ℕ → ℕ → ℕ
larger a b = if ltb b a then a else b

-- The two numbers of the text: the blocks that differ, and all.
unfoldable pub diff_nodes : VersionNode → VersionNode → ℕ × ℕ
diff_nodes a b = let maxb = larger a.block_count b.block_count in (count_diffs maxb a b 0, maxb)

unfoldable pub version_manager_diff : Option VersionChain → ℕ → ℕ → Status × Option (ℕ × ℕ)
version_manager_diff none v1 v2 = (enoent, none)
version_manager_diff (some chain) v1 v2 = elim (find_last v1 chain.nodes) [
  | none ↦ (enoent, none)
  | some a ↦ elim (find_last v2 chain.nodes) [
    | none ↦ (enoent, none)
    | some b ↦ (success, some (diff_nodes a b))
  ]
]
