-- ===== src/Directory/Laws.antt =====
-- A directory stays well formed, and is a map from names to inodes.
use smartbackup_fs.Base.{
  ℕ, ◌+◌, ◌-◌, ◌<◌, ◌%◌, ◌^◌, ◌≡◌, refl, sym, ap, ◌∙◌, true, false, none, some, List, [], ◌∷◌,
  length, if◌then◌else◌, success, eexist, enoent, inl, inr, Bool-cases, Option-cases, arith,
}
use smartbackup_fs.Version.Query.{same_text}
use smartbackup_fs.Directory.{
  DirEntry, Directory, find_entry, find_directory_entry, add_directory_entry,
  remove_directory_entry, without, sizeof_dir_entry,
}

same_text_self : (a : List ℕ) → same_text a a ≡ true
unfolding same_text
same_text_self [] = refl
same_text_self (x ∷ xs) = ground (arith, same_text_self xs)

same_text→same : (a b : List ℕ) → same_text a b ≡ true → a ≡ b
unfolding same_text
same_text→same [] [] h = refl
same_text→same [] (y ∷ ys) h = absurd (cc)
same_text→same (x ∷ xs) [] h = absurd (cc)
same_text→same (x ∷ xs) (y ∷ ys) h =
    let head : x ≡ y = ground arith in
    let tail : xs ≡ ys = same_text→same xs ys (ground arith) in cc

-- the bytes that the entries count for
unfoldable pub entry_bytes : List DirEntry → ℕ
entry_bytes [] = 0
entry_bytes (e ∷ es) = length e.name + sizeof_dir_entry + entry_bytes es

-- No name stands twice.
unfoldable pub Distinct : List DirEntry → Type 0
Distinct [] = Unit
Distinct (e ∷ es) = (find_entry e.name es ≡ none) × Distinct es

-- the count and the size go with the entries; `base` is the size of the empty directory
pub record IsValid (base : ℕ) (dir : Directory) : Type 0 where
  pub distinct : Distinct dir.entries
  pub counted : dir.entry_count ≡ length dir.entries
  pub sized : dir.size ≡ base + entry_bytes dir.entries
  pub bounded : dir.size < 2 ^ 64

-- what removing a name does to the lookup of any name
find_entry-without :
    (name other : List ℕ) (es : List DirEntry)
    → Distinct es
    → find_entry other (without name es)
      ≡ (if same_text name other then none else find_entry other es)
unfolding find_entry without Distinct
find_entry-without name other [] d = elim (Bool-cases (same_text name other)) [
  | inl e ↦ rw e refl
  | inr e ↦ rw e refl
]
find_entry-without name other (e ∷ es) d =
    let ih = find_entry-without name other es d.1 in
    elim (Bool-cases (same_text e.name name)) [
      | inl here ↦
          (let same = same_text→same e.name name here in
            let alike : same_text e.name other ≡ same_text name other =
              ap (λ n. same_text n other) same in
            elim (Bool-cases (same_text name other)) [
              | inl eq ↦
                  (let gone : find_entry other es ≡ none =
                      ap (λ n. find_entry n es) (sym (same ∙ same_text→same name other eq)) ∙ d.0 in
                    rw (here, eq) gone)
              | inr ne ↦ rw (here, alike, ne) refl
            ])
      | inr below ↦ elim (Bool-cases (same_text e.name other)) [
        | inl eq ↦
            (let apart : same_text name other ≡ false = elim (Bool-cases (same_text name other)) [
              | inr ne ↦ ne
              | inl eq' ↦
                  (let same =
                      same_text→same e.name other eq ∙ sym (same_text→same name other eq') in
                    let hit : same_text e.name name ≡ true =
                      ap (λ n. same_text e.name n) (sym same) ∙ same_text_self e.name in
                    absurd (cc))
            ] in
              rw (below, eq, apart) refl)
        | inr ne ↦ rw (below, ne) ih
      ]
    ]

without-Distinct : (name : List ℕ) (es : List DirEntry) → Distinct es → Distinct (without name es)
unfolding Distinct without
without-Distinct name [] d = d
without-Distinct name (e ∷ es) d = elim (Bool-cases (same_text e.name name)) [
  | inl here ↦ rw here d.1
  | inr below ↦
      (let kept = find_entry-without name e.name es d.1 in
        let there : find_entry e.name (without name es) ≡ none = ground (arith, kept, d.0) in
        rw below (there, without-Distinct name es d.1))
]

-- A name that is found is the name of its entry.
without-bytes :
    (name : List ℕ) (es : List DirEntry) (e : DirEntry)
    → find_entry name es ≡ some e
    → (entry_bytes es ≡ length name + sizeof_dir_entry + entry_bytes (without name es))
      × (length es ≡ length (without name es) + 1)
unfolding find_entry without entry_bytes
without-bytes name [] e h = absurd (cc)
without-bytes name (x ∷ es) e h = elim (Bool-cases (same_text x.name name)) [
  | inl here ↦
      (let size : length x.name ≡ length name = ap length (same_text→same x.name name here) in
        rw here (omega (arith, size), omega arith))
  | inr below ↦
      (let found : find_entry name es ≡ some e = rw (below, find_entry) at h in
        let ih = without-bytes name es e found in
        rw below (omega (arith, ih.0), omega (arith, ih.1)))
]

-- Adding an entry to a valid directory whose size does not overflow: a name that is there is refused
-- and nothing changes; otherwise, if memory is given, the directory stays valid, the name is found
-- with its inode, and every other name is found as before.
pub add_directory_entry-lem :
    (base : ℕ) (dir : Directory) (name : List ℕ) (ino now : ℕ)
    → IsValid base dir
    → dir.size + length name + sizeof_dir_entry < 2 ^ 64
    → let (r, dir') = add_directory_entry dir name ino now true in
      IsValid base dir'
      × (r ≡ (elim (find_directory_entry dir name) [ none ↦ success | some _ ↦ eexist ]))
      × ((e : DirEntry) → find_directory_entry dir name ≡ some e → dir' ≡ dir)
      × ((other : List ℕ)
          → same_text name other ≡ false
          → find_directory_entry dir' other ≡ find_directory_entry dir other)
      × (find_directory_entry dir name ≡ none
          → find_directory_entry dir' name ≡ some (record { name = name; ino = ino }))
unfolding add_directory_entry find_directory_entry find_entry Distinct entry_bytes
add_directory_entry-lem base dir name ino now v room =
    elim (Option-cases (find_entry name dir.entries)) [
      | inr (e, there) ↦
          rw (there, add_directory_entry)
            (v, refl, λ _ _. refl, λ _ _. refl, λ missing. absurd (cc))
      | inl missing ↦
          (let grown : (dir.size + length name + sizeof_dir_entry) % 2 ^ 64
                ≡ base + (length name + sizeof_dir_entry + entry_bytes dir.entries) =
              omega (arith, v.sized, room) in
            let apart : (other : List ℕ)
                → same_text name other ≡ false
                → find_entry other (record { name = name; ino = ino } ∷ dir.entries)
                  ≡ find_entry other dir.entries =
              λ other ne. rw ne refl in
            let hit : find_entry name (record { name = name; ino = ino } ∷ dir.entries)
                ≡ some (record { name = name; ino = ino }) =
              rw (same_text_self name) refl in
            rw (missing, add_directory_entry)
              (
                record {
                  distinct = (missing, v.distinct);
                  counted = omega (arith, v.counted);
                  sized = grown;
                  bounded = omega (arith, room);
                },
                refl,
                λ e there. absurd (cc),
                apart,
                λ _. hit,
              ))
    ]

-- Removing an entry from a valid directory: a name that is not there is refused and nothing changes;
-- otherwise the directory stays valid, the name is found no more, and every other name is found as
-- before.
pub remove_directory_entry-lem :
    (base : ℕ) (dir : Directory) (name : List ℕ) (now : ℕ)
    → IsValid base dir
    → let (r, dir') = remove_directory_entry dir name now in
      IsValid base dir'
      × (r ≡ (elim (find_directory_entry dir name) [ none ↦ enoent | some _ ↦ success ]))
      × (find_directory_entry dir name ≡ none → dir' ≡ dir)
      × ((other : List ℕ)
          → find_directory_entry dir' other
            ≡ (if same_text name other then none else find_directory_entry dir other))
unfolding remove_directory_entry find_directory_entry
remove_directory_entry-lem base dir name now v = elim (Option-cases (find_entry name dir.entries)) [
  | inl missing ↦
      (let same : (other : List ℕ)
            → find_entry other dir.entries
              ≡ (if same_text name other then none else find_entry other dir.entries) =
          λ other. elim (Bool-cases (same_text name other)) [
            | inl eq ↦
                rw eq (
                  ap (λ n. find_entry n dir.entries) (sym (same_text→same name other eq)) ∙ missing)
            | inr ne ↦ rw ne refl
          ] in
        rw (missing, remove_directory_entry) (v, refl, λ _. refl, same))
  | inr (e, there) ↦
      (let bytes = without-bytes name dir.entries e there in
        let shrunk : (dir.size + 2 ^ 64 - (length name + sizeof_dir_entry)) % 2 ^ 64
            ≡ base + entry_bytes (without name dir.entries) =
          omega (arith, v.sized, bytes.0, v.bounded) in
        rw (there, remove_directory_entry)
          (
            record {
              distinct = without-Distinct name dir.entries v.distinct;
              counted = omega (arith, v.counted, bytes.1);
              sized = shrunk;
              bounded = omega arith;
            },
            refl,
            λ missing. absurd (cc),
            λ other. find_entry-without name other dir.entries v.distinct,
          ))
]
