-- ===== src/Directory.antt =====
-- The entries of a directory: add_directory_entry, remove_directory_entry and find_directory_entry of
-- src/module_a/metadata_manager.c, over directory_t of include/smartbackupfs.h. An entry's metadata
-- is its inode number; `entry->name` is the list of the name's characters; `mem` says whether
-- `malloc` succeeds; `now` is the clock.
pub mod Laws
pub mod Paths
use smartbackup_fs.Base.{
  ℕ, suc, ◌+◌, ◌-◌, ◌/◌, ◌%◌, ◌^◌, Bool, true, false, Option, none, some, List, [], ◌∷◌, length,
  if◌then◌else◌, Status, success, eexist, enoent, enomem,
}
use smartbackup_fs.Version.Query.{same_text}

-- `dir_entry_t`
pub record DirEntry : Type 0 where
  pub name : List ℕ
  pub ino : ℕ

-- `directory_t`: its entries, the first in the list first, and the fields of `meta` that change
pub record Directory : Type 0 where
  pub entries : List DirEntry
  pub entry_count : ℕ
  pub size : ℕ
  pub blocks : ℕ
  pub mtime : ℕ

-- three pointers
abbrev pub sizeof_dir_entry : ℕ
sizeof_dir_entry = 24

abbrev pub default_block_size : ℕ
default_block_size = 4096

-- the new size, and what follows from it
abbrev pub resize : ℕ → ℕ → Directory → Directory
resize size now dir = record dir {
  size = size;
  blocks = (size + default_block_size - 1) / default_block_size;
  mtime = now;
}

unfoldable pub find_entry : List ℕ → List DirEntry → Option DirEntry
find_entry name [] = none
find_entry name (e ∷ es) = if same_text e.name name then some e else find_entry name es

pub find_directory_entry : Directory → List ℕ → Option DirEntry
find_directory_entry dir name = find_entry name dir.entries

pub add_directory_entry : Directory → List ℕ → ℕ → ℕ → Bool → Status × Directory
add_directory_entry dir name ino now mem = elim (find_entry name dir.entries) [
  | some e ↦ (eexist, dir)
  | none ↦
      if mem
      then (
        success,
        resize ((dir.size + length name + sizeof_dir_entry) % 2 ^ 64) now (record dir {
          entries = record { name = name; ino = ino } ∷ dir.entries;
          entry_count = dir.entry_count + 1;
        }),
      )
      else (enomem, dir)
]

-- the list without the first entry of the name
unfoldable pub without : List ℕ → List DirEntry → List DirEntry
without name [] = []
without name (e ∷ es) = if same_text e.name name then es else e ∷ without name es

-- The size is taken down on 64 bits.
pub remove_directory_entry : Directory → List ℕ → ℕ → Status × Directory
remove_directory_entry dir name now = elim (find_entry name dir.entries) [
  | none ↦ (enoent, dir)
  | some e ↦ (
    success,
    resize ((dir.size + 2 ^ 64 - (length name + sizeof_dir_entry)) % 2 ^ 64) now
        (record dir { entries = without name dir.entries; entry_count = dir.entry_count - 1 }),
  )
]
