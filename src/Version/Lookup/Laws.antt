-- ===== src/Version/Lookup/Laws.antt =====
-- In a well-linked chain the climb up the parent pointers ends, and finds what the nearest version
-- at or below the starting one in the chain stores.
use smartbackup_fs.Base.{
  ℕ, zero, suc, ◌≤◌, ◌<◌, ◌≡◌, refl, ◌∙◌, Option, none, some, List, [], ◌∷◌, arith, length, Bool,
  true, false, ◌==◌, if◌then◌else◌, Bool-cases, ap, ==_iff, inl, inr,
}
use smartbackup_fs.Version.Types.{Snapshot, VersionNode, find_version, head_addr}
use smartbackup_fs.Version.Lookup.{BlockData, own_data, climb, snapshot_get_block_data}

unfoldable pub has : ℕ → List VersionNode → Bool
has a [] = false
has a (n ∷ ns) = if n.addr == a then true else has a ns

-- A snapshot that is marked as holding data has a buffer of its size, which is not empty.
abbrev pub IsSound : Snapshot → Type 0
IsSound s =
    s.has_data ≡ true
    → (bytes : List ℕ) × (s.buffer ≡ some bytes) × (s.size ≡ length bytes) × (0 < length bytes)

abbrev pub AllSound : List Snapshot → Type 0
AllSound [] = Unit
AllSound (s ∷ ss) = IsSound s × AllSound ss

-- Each version's parent is the next older one, and no address stands twice.
abbrev pub IsLinked : List VersionNode → Type 0
IsLinked [] = Unit
IsLinked (n ∷ ns) =
    (n.parent ≡ head_addr ns)
    × (has n.addr ns ≡ false)
    × (n.snapshot_count ≡ length n.snapshots)
    × AllSound n.snapshots
    × IsLinked ns

abbrev pub or_block : Option BlockData → Option BlockData → Option BlockData
or_block (some r) other = some r
or_block none other = other

-- The specification: the first of the versions that stores the block.
unfoldable pub resolve : List VersionNode → ℕ → Option BlockData
resolve [] i = none
resolve (n ∷ ns) i = or_block (own_data n i) (resolve ns i)

-- a version and the older ones
unfoldable pub since : ℕ → List VersionNode → List VersionNode
since a [] = []
since a (n ∷ ns) = if n.addr == a then n ∷ ns else since a ns

-- what a block of the version at `a` reads as
abbrev pub block_of : List VersionNode → ℕ → ℕ → Option BlockData
block_of nodes a i = resolve (since a nodes) i

find_head :
    (n : VersionNode) (ns : List VersionNode)
    → (has n.addr (n ∷ ns) ≡ true) × (find_version n.addr (n ∷ ns) ≡ some n)
unfolding find_version has
find_head n ns = (ground arith, ground arith)

find_below :
    (a : ℕ) (n : VersionNode) (ns : List VersionNode)
    → has n.addr ns ≡ false
    → has a ns ≡ true
    → (has a (n ∷ ns) ≡ true) × (find_version a (n ∷ ns) ≡ find_version a ns)
unfolding find_version has
find_below a n ns apart h = (ground arith, ground arith)

climb-resolve :
    (f : ℕ) (full ns : List VersionNode) (i : ℕ)
    → IsLinked ns
    → ((a : ℕ) → has a ns ≡ true → find_version a full ≡ find_version a ns)
    → length ns < f
    → climb f full (head_addr ns) i ≡ resolve ns i
unfolding climb resolve
climb-resolve zero full ns i l same enough = absurd (omega arith)
climb-resolve (suc f) full [] i l same enough = refl
climb-resolve (suc f) full (n ∷ ns) i l same enough =
    let here : find_version n.addr full ≡ some n =
      same n.addr (find_head n ns).0 ∙ (find_head n ns).1 in
    let rest : climb f full n.parent i ≡ resolve ns i = rw l.0 (
      climb-resolve f full ns i l.4
        (λ a h. same a (find_below a n ns l.1 h).0 ∙ (find_below a n ns l.1 h).1) (omega arith)) in
    rw (here, climb) (ground (arith, rest))

pub has-since : (a b : ℕ) (ns : List VersionNode) → has b (since a ns) ≡ true → has b ns ≡ true
unfolding since has
has-since a b [] h = h
has-since a b (n ∷ ns) h = ground (arith, has-since a b ns)

find_version-since :
    (a b : ℕ) (ns : List VersionNode)
    → IsLinked ns
    → has b (since a ns) ≡ true
    → find_version b ns ≡ find_version b (since a ns)
unfolding since
find_version-since a b [] l h = refl
find_version-since a b (n ∷ ns) l h = elim (Bool-cases (n.addr == a)) [
  | inl here ↦ rw here
  | inr below ↦
      let h' : has b (since a ns) ≡ true = rw below at h in
      rw below ((find_below b n ns l.1 (has-since a b ns h')).1 ∙ find_version-since a b ns l.4 h')
]

pub since-IsLinked : (a : ℕ) (ns : List VersionNode) → IsLinked ns → IsLinked (since a ns)
unfolding since
since-IsLinked a [] l = tt
since-IsLinked a (n ∷ ns) l = elim (Bool-cases (n.addr == a)) [
  | inl here ↦ rw here l
  | inr below ↦ rw below (since-IsLinked a ns l.4)
]

pub length-since : (a : ℕ) (ns : List VersionNode) → length (since a ns) ≤ length ns
unfolding since
length-since a [] = omega arith
length-since a (n ∷ ns) = ground (arith, length-since a ns)

head_addr-since :
    (a : ℕ) (ns : List VersionNode) → has a ns ≡ true → head_addr (since a ns) ≡ some a
unfolding since has
head_addr-since a [] h = ground arith
head_addr-since a (n ∷ ns) h = elim (Bool-cases (n.addr == a)) [
  | inl here ↦ rw here (ap some ((==_iff n.addr a).0 here))
  | inr below ↦ rw below (head_addr-since a ns (rw below at h))
]

-- The lookup of a block of a version in a well-linked chain ends within its fuel, with what the
-- nearest version at or below it stores.
pub snapshot_get_block_data-resolve :
    (nodes : List VersionNode) (a i : ℕ)
    → IsLinked nodes
    → has a nodes ≡ true
    → snapshot_get_block_data nodes a i ≡ block_of nodes a i
unfolding snapshot_get_block_data
snapshot_get_block_data-resolve nodes a i l h = rw (← head_addr-since a nodes h) (
    climb-resolve (suc (length nodes)) nodes (since a nodes) i (since-IsLinked a nodes l)
      (λ b. find_version-since a b nodes l) (omega (arith, length-since a nodes)))
