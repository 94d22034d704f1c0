-- ===== src/Directory/Paths.antt =====
-- Looking up a path: lookup_path of src/module_a/metadata_manager.c. A path is the list of its characters,
-- and not null; memory is taken to be there. Locks are left out.
pub mod Laws
use smartbackup_fs.Base.{
  ℕ, ◌==◌, Bool, true, false, Option, none, some, List, [], ◌∷◌, if◌then◌else◌,
}
use smartbackup_fs.Lru.{LruCache}
use smartbackup_fs.Version.Types.{VersionChain, FileMeta}
use smartbackup_fs.Version.Query.{Clib, same_text, version_manager_get_version_meta}
use smartbackup_fs.Directory.{DirEntry, Directory, find_entry}

abbrev pub slash : ℕ
slash = 47

abbrev pub at_sign : ℕ
at_sign = 64

-- "versions"
abbrev pub versions : List ℕ
versions = 118 ∷ 101 ∷ 114 ∷ 115 ∷ 105 ∷ 111 ∷ 110 ∷ 115 ∷ []

-- The inodes: those of type `FT_DIRECTORY` are the first member of a `directory_t`.
pub record Namespace : Type 0 where
  pub root : ℕ
  pub directory : ℕ → Option Directory

-- what a path stands for: an inode's current metadata, or the version of it that the text names
pub data Target : Type 0 where
  current : ℕ → Target
  at_version : ℕ → List ℕ → Target

abbrev pub push_token : List ℕ → List (List ℕ) → List (List ℕ)
push_token [] ts = ts
push_token (c ∷ cs) ts = (c ∷ cs) ∷ ts

-- the characters before the first slash, and the tokens after it
unfoldable pub first_token : List ℕ → List ℕ × List (List ℕ)
first_token [] = ([], [])
first_token (c ∷ cs) =
    let (t, ts) = first_token cs in if c == slash then ([], push_token t ts) else (c ∷ t, ts)

-- the tokens that `strtok_r` gives, one call after the other
unfoldable pub tokens : List ℕ → List (List ℕ)
tokens cs = let (t, ts) = first_token cs in push_token t ts

-- a token's part before the first `@`, and what follows it
unfoldable pub split_version : List ℕ → List ℕ × Option (List ℕ)
split_version [] = ([], none)
split_version (c ∷ cs) =
    let (base, ver) = split_version cs in if c == at_sign then ([], some cs) else (c ∷ base, ver)

unfoldable pub target : ℕ → Option (List ℕ) → Target
target ino none = current ino
target ino (some ver) = if same_text ver versions then current ino else at_version ino ver

abbrev pub last_entry : Option (List ℕ) → Option DirEntry → Option Target
last_entry ver none = none
last_entry ver (some e) = some (target e.ino ver)

-- the directory that an entry leads to
abbrev pub next_dir : Namespace → Option DirEntry → Option Directory
next_dir fs none = none
next_dir fs (some e) = fs.directory e.ino

-- The loop: the version of a token that is not the last is dropped.
unfoldable pub walk : Namespace → Option Directory → List (List ℕ) → Option Target
walk fs none ts = none
walk fs (some dir) [] = none
walk fs (some dir) (t ∷ []) =
    let (base, ver) = split_version t in last_entry ver (find_entry base dir.entries)
walk fs (some dir) (t ∷ (u ∷ us)) =
    walk fs (next_dir fs (find_entry (split_version t).0 dir.entries)) (u ∷ us)

abbrev pub from_root : Namespace → List ℕ → Option Target
from_root fs [] = some (current fs.root)
from_root fs (c ∷ cs) = walk fs (fs.directory fs.root) (tokens (c ∷ cs))

-- the path up to the call of the version manager
unfoldable pub find_target : Namespace → List ℕ → Option Target
find_target fs [] = none
find_target fs (c ∷ cs) = if c == slash then from_root fs cs else none

-- `metas` are the inodes' metadata, `chains` their version chains, and `cache` is the version manager's
module _ (lib : Clib) (now stamp : ℕ) (metas : ℕ → FileMeta) (chains : ℕ → Option VersionChain)
    (cache : Option (LruCache FileMeta)) where
  abbrev pub meta_of : Option Target → Option FileMeta × Option (LruCache FileMeta)
  meta_of none = (none, cache)
  meta_of (some (current ino)) = (some (metas ino), cache)
  meta_of (some (at_version ino ver)) =
      version_manager_get_version_meta lib now stamp (chains ino) (metas ino) cache ver

  unfoldable pub lookup_path : Namespace → List ℕ → Option FileMeta × Option (LruCache FileMeta)
  lookup_path fs path = meta_of (find_target fs path)
