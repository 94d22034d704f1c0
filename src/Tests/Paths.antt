-- ===== src/Tests/Paths.antt =====
-- Inputs for path lookup (src/module_a/metadata_manager.c): a root with the directory "a" that holds "b".
use smartbackup_fs.Base.{ℕ, ◌≡◌, refl, true, false, none, some, List, [], ◌∷◌, ◌==◌, if◌then◌else◌}
use smartbackup_fs.Version.Types.{FileMeta}
use smartbackup_fs.Version.Query.{Clib, same_text}
use smartbackup_fs.Directory
use smartbackup_fs.Directory.{find_entry}
use smartbackup_fs.Directory.Paths.{Namespace, target, lookup_path, versions}
use smartbackup_fs.Directory.Paths.Laws.{
  Component, IsComponent, AreComponents, Lacks, LacksIn, follow, path_of, lookup_path-path_of,
}

abbrev clib : Clib
clib = record { strtol = λ digits. 5; day_start = λ now days. 0 }

abbrev meta : ℕ → FileMeta
meta ino = record {
  ino = ino;
  versioned = true;
  size = 10;
  blocks = 1;
  version = 1;
  version_count = 0;
  latest_version_id = 0;
  last_version_time = 0;
  version_pinned = false;
  version_handle = none;
}

abbrev holding : List ℕ → ℕ → Directory.Directory
holding name ino = record {
  entries = record { name = name; ino = ino } ∷ [];
  entry_count = 1;
  size = 4121;
  blocks = 2;
  mtime = 1000;
}

abbrev space : Namespace
space = record {
  root = 1;
  directory = λ ino.
      if ino == 1
      then some (holding (97 ∷ []) 2)
      else if ino == 2
      then some (holding (98 ∷ []) 3)
      else none;
}

-- "a@5"
abbrev old_a : Component
old_a = record { name = 97 ∷ []; version = some (53 ∷ []) }

-- "b@versions"
abbrev all_b : Component
all_b = record { name = 98 ∷ []; version = some versions }

old_a-IsComponent : IsComponent old_a
unfolding Lacks LacksIn
old_a-IsComponent = record {
  named = λ e. absurd (cc);
  whole = (refl, tt);
  plain = (refl, tt);
  single = (refl, tt);
}

all_b-IsComponent : IsComponent all_b
unfolding Lacks LacksIn
all_b-IsComponent = record {
  named = λ e. absurd (cc);
  whole = (refl, tt);
  plain = (refl, tt);
  single = (refl, (refl, (refl, (refl, (refl, (refl, (refl, (refl, tt))))))));
}

only_b : AreComponents (all_b ∷ [])
unfolding AreComponents
only_b = (all_b-IsComponent, tt)

lookup_path-path_of_example :
    lookup_path clib 1000 5 meta (λ ino. none) none space (path_of (old_a ∷ all_b ∷ []))
    ≡ (some (meta 3), none)
unfolding follow target find_entry same_text
lookup_path-path_of_example =
    lookup_path-path_of clib 1000 5 meta (λ ino. none) none space old_a (all_b ∷ [])
      old_a-IsComponent only_b
