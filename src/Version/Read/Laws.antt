-- ===== src/Version/Read/Laws.antt =====
-- What `version_manager_read_version_data` reads is the file's image at the version, byte by byte.
use smartbackup_fs.Base.{
  ℕ, zero, suc, ◌+◌, ◌-◌, ◌%◌, ◌<◌, ◌≤◌, min, Option, none, some, List, [], ◌∷◌, length, ltb, leb,
  ◌==◌, if◌then◌else◌, ◌≡◌, sym, ap, ◌∙◌, inl, inr, Bool-cases, Option-cases, arith,
}
use native.Mathlib.Nat.{mod-lt}
use smartbackup_fs.Version.Types.{Snapshot, VersionNode, FileMeta, find_version}
use smartbackup_fs.Version.Lookup.{
  BlockData, held, held_at, own_data, climb, snapshot_get_block_data,
}
use smartbackup_fs.Version.Lookup.Laws.{IsLinked, IsSound, AllSound}
use smartbackup_fs.Version.Read.{
  ReadResult, to_read, read_loop, read_blocks, look_up, read_version,
  version_manager_read_version_data,
}
use smartbackup_fs.Version.Read.Image.{byte_at, image, IsSized, image_none, image-append, one_block}

-- The rounds of the loop.
read_loop-image :
    (fuel block_size : ℕ) (look : ℕ → Option BlockData) (size bytes_read current : ℕ)
    → 0 < block_size
    → IsSized look
    → size - bytes_read < fuel
    → read_loop fuel block_size look size bytes_read current
      ≡ image (byte_at block_size look) current (size - bytes_read)
unfolding read_loop image
read_loop-image zero block_size look size bytes_read current pos sized h = absurd (omega arith)
read_loop-image (suc fuel) block_size look size bytes_read current pos sized h =
    let off = current % block_size in
    let left = size - bytes_read in
    let n = to_read block_size off left in
    let byte = byte_at block_size look in
    let within : off < block_size = mod-lt current pos in
    elim (Bool-cases (ltb bytes_read size)) [
      | inl e ↦
          (let room : n ≤ block_size - off = ground arith in
            let least : n ≤ left = ground arith in
            let some_byte : 0 < n = ground arith in
            let now = one_block block_size look current n pos sized room in
            let later =
              read_loop-image fuel block_size look size (bytes_read + n) (current + n) pos sized
                (omega arith) in
            let front = image-append byte current n (size - (bytes_read + n)) in
            let total : n + (size - (bytes_read + n)) ≡ left = omega arith in rw e (cc))
      | inr e ↦
          (let none_left : left ≡ 0 = ground arith in
            rw e (ap (image byte current) (sym none_left)))
    ]

-- Every block that a version stores has the recorded size.
unfoldable pub AreSized : List VersionNode → Type 0
AreSized nodes = (a : ℕ) (n : VersionNode) → find_version a nodes ≡ some n → IsSized (own_data n)

climb-IsSized :
    (nodes : List VersionNode)
    → AreSized nodes
    → (fuel : ℕ) (a : Option ℕ) → IsSized (climb fuel nodes a)
unfolding climb IsSized AreSized
climb-IsSized nodes v zero a i blk avail h = absurd (cc)
climb-IsSized nodes v (suc fuel) none i blk avail h = absurd (cc)
climb-IsSized nodes v (suc fuel) (some a) i blk avail h =
    elim (Option-cases (find_version a nodes)) [
      | inl e ↦ absurd (cc (rw (e, climb) at h))
      | inr (n, e) ↦ elim (Option-cases (own_data n i)) [
        | inl e' ↦ climb-IsSized nodes v fuel n.parent i blk avail (rw (e, e', climb) at h)
        | inr (r, e') ↦ v a n e i blk avail (e' ∙ (rw (e, e', climb) at h))
      ]
    ]

look_up-IsSized :
    (nodes : List VersionNode) (vn : VersionNode) → AreSized nodes → IsSized (look_up nodes vn)
unfolding look_up IsSized snapshot_get_block_data
look_up-IsSized nodes vn v i blk avail h = elim (Bool-cases (ltb i vn.snapshot_count)) [
  | inl e ↦ climb-IsSized nodes v (suc (length nodes)) (some vn.addr) i blk avail (rw e at h)
  | inr e ↦ absurd (cc (rw e at h))
]

held-IsSized :
    (s : Snapshot) (blk : List ℕ) (avail : ℕ)
    → IsSound s
    → held s ≡ some (blk, avail)
    → length blk ≡ avail
unfolding held
held-IsSized s blk avail v h = elim (Bool-cases s.has_data) [
  | inr e ↦ absurd (ground arith)
  | inl e ↦ (let (bytes, kept, size, some_bytes) = v e in ground arith)
]

held_at-IsSized :
    (ss : List Snapshot) (i : ℕ) (blk : List ℕ) (avail : ℕ)
    → AllSound ss
    → held_at ss i ≡ some (blk, avail)
    → length blk ≡ avail
unfolding held_at
held_at-IsSized [] i blk avail v h = absurd (cc)
held_at-IsSized (s ∷ ss) zero blk avail v h = held-IsSized s blk avail v.0 h
held_at-IsSized (s ∷ ss) (suc i) blk avail v h = held_at-IsSized ss i blk avail v.1 h

-- A well-linked chain stores every block with its size.
IsLinked-AreSized : (nodes : List VersionNode) → IsLinked nodes → AreSized nodes
unfolding AreSized IsSized find_version own_data
IsLinked-AreSized [] l a n e i blk avail h = absurd (cc)
IsLinked-AreSized (m ∷ ms) l a n e i blk avail h = elim (Bool-cases (m.addr == a)) [
  | inr below ↦
      (let found : find_version a ms ≡ some n = rw (below, find_version) at e in
        IsLinked-AreSized ms l.4 a n found i blk avail h)
  | inl here ↦
      (let found : some m ≡ some n = rw (here, find_version) at e in
        let same : n ≡ m = cc in
        let stored = ap (λ k. own_data k i) (sym same) ∙ h in
        elim (Bool-cases (ltb i m.snapshot_count)) [
          | inl f ↦ held_at-IsSized m.snapshots i blk avail l.3 (rw (f, own_data) at stored)
          | inr f ↦ absurd (cc (rw (f, own_data) at stored))
        ])
]

read_version-image :
    (block_size : ℕ) (nodes : List VersionNode) (vn : VersionNode) (size offset : ℕ)
    → 0 < block_size
    → AreSized nodes
    → read_version block_size nodes vn size offset
      ≡ image (byte_at block_size (look_up nodes vn)) offset (min size (vn.file_size - offset))
unfolding read_version read_blocks
read_version-image block_size nodes vn size offset pos v =
    let byte = byte_at block_size (look_up nodes vn) in
    elim (Bool-cases (leb vn.file_size offset)) [
      | inl e ↦
          (let past : min size (vn.file_size - offset) ≡ 0 = ground arith in
            rw (e, past) (sym (image_none byte offset)))
      | inr e ↦
          (let n = if ltb (vn.file_size - offset) size then vn.file_size - offset else size in
            let least : n - 0 ≡ min size (vn.file_size - offset) = ground arith in
            rw e (
              read_loop-image (suc n) block_size (look_up nodes vn) n 0 offset pos
                (look_up-IsSized nodes vn v) (omega arith)
              ∙ ap (image byte offset) least))
    ]

-- Reading `size` bytes from `offset` on gives, at a version whose handle is valid, exactly the bytes
-- of the file at that version, as many as are asked for and the file has: each comes from the block
-- its position falls into, as the version stores or inherits it, and is zero where there is no
-- data. The block size is positive and the versions are well linked.
pub version_manager_read_version_data-image :
    (block_size : ℕ) (nodes : List VersionNode) (m : FileMeta) (a : ℕ) (vn : VersionNode)
    (size offset : ℕ)
    → 0 < block_size
    → IsLinked nodes
    → m.version_handle ≡ some a
    → find_version a nodes ≡ some vn
    → version_manager_read_version_data block_size nodes (some m) size offset
      ≡ ReadResult.bytes
          (image (byte_at block_size (look_up nodes vn)) offset (min size (vn.file_size - offset)))
unfolding version_manager_read_version_data
version_manager_read_version_data-image block_size nodes m a vn size offset pos v e f =
    rw (e, f)
      (ap ReadResult.bytes
        (read_version-image block_size nodes vn size offset pos (IsLinked-AreSized nodes v)))
