-- ===== src/Version/Remove/Fill.antt =====
-- What the copies of inherited blocks make of an heir's snapshots.
use smartbackup_fs.Base.{
  ℕ, zero, suc, ◌+◌, ◌<◌, ◌≡◌, refl, ap, Option, none, some, List, [], ◌∷◌, arith, length, true,
  false, Bool-cases, inl, inr, take-all, ltb,
}
use native.Mathlib.Nat.{add-zero}
use smartbackup_fs.Version.Types.{Snapshot, VersionNode}
use smartbackup_fs.Version.Lookup.{BlockData, held, held_at, own_data}
use smartbackup_fs.Version.Lookup.Laws.{IsSound, AllSound, IsLinked, resolve, or_block}
use smartbackup_fs.Version.Remove.{copy_block, fill_block, fill_from}

-- a block that was read is not empty, and its size is its length
abbrev pub IsBlock : Option BlockData → Type 0
IsBlock none = Unit
IsBlock (some (bytes, sz)) = (sz ≡ length bytes) × (0 < sz)

or_block-IsBlock : (a b : Option BlockData) → IsBlock a → IsBlock b → IsBlock (or_block a b)
or_block-IsBlock none b h k = k
or_block-IsBlock (some a) b h k = h

held-IsBlock : (s : Snapshot) → IsSound s → IsBlock (held s)
unfolding held
held-IsBlock s h = elim (Bool-cases s.has_data) [
  | inr e ↦ rw e tt
  | inl e ↦ let (bytes, at, size, pos) = h e in rw (e, at) (size, rw size pos)
]

held_at-IsBlock : (ss : List Snapshot) (i : ℕ) → AllSound ss → IsBlock (held_at ss i)
unfolding held_at
held_at-IsBlock [] i h = tt
held_at-IsBlock (s ∷ ss) zero h = held-IsBlock s h.0
held_at-IsBlock (s ∷ ss) (suc i) h = held_at-IsBlock ss i h.1

own_data-IsBlock : (n : VersionNode) (i : ℕ) → AllSound n.snapshots → IsBlock (own_data n i)
unfolding own_data
own_data-IsBlock n i h = elim (Bool-cases (ltb i n.snapshot_count)) [
  | inl e ↦ rw e (held_at-IsBlock n.snapshots i h)
  | inr e ↦ rw e tt
]

pub resolve-IsBlock : (ns : List VersionNode) (i : ℕ) → IsLinked ns → IsBlock (resolve ns i)
unfolding resolve
resolve-IsBlock [] i l = tt
resolve-IsBlock (n ∷ ns) i l =
    or_block-IsBlock _ _ (own_data-IsBlock n i l.3) (resolve-IsBlock ns i l.4)

copied : List ℕ → ℕ → Snapshot
copied bytes sz = record { size = sz; buffer = some bytes; has_data = true }

copy_block-copied :
    (bytes : List ℕ) (sz : ℕ) (s : Snapshot)
    → IsBlock (some (bytes, sz))
    → copy_block (some (bytes, sz)) s ≡ (copied bytes sz, sz)
unfolding copy_block copied
copy_block-copied bytes sz s h = ground (arith, take-all bytes sz)

held-copied : (bytes : List ℕ) (sz : ℕ) → held (copied bytes sz) ≡ some (bytes, sz)
unfolding held copied
held-copied bytes sz = refl

copied-IsSound : (bytes : List ℕ) (sz : ℕ) → IsBlock (some (bytes, sz)) → IsSound (copied bytes sz)
unfolding copied
copied-IsSound bytes sz h t = (bytes, refl, h.0, omega arith)

held-none : (s : Snapshot) → s.has_data ≡ false → held s ≡ none
unfolding held
held-none s e = ground arith

fill_block-held :
    (r : Option BlockData) (s : Snapshot) → s.has_data ≡ true → fill_block r s ≡ (s, 0)
unfolding fill_block
fill_block-held r s e = ground arith

fill_block-copy :
    (r : Option BlockData) (s : Snapshot) → s.has_data ≡ false → fill_block r s ≡ copy_block r s
unfolding fill_block
fill_block-copy r s e = ground arith

held-some : (s : Snapshot) → IsSound s → s.has_data ≡ true → (r : BlockData) × (held s ≡ some r)
unfolding held
held-some s h e = let (bytes, at, size, pos) = h e in ((bytes, s.size), ground arith)

copy_block-lem :
    (r : Option BlockData) (s : Snapshot)
    → s.has_data ≡ false
    → IsSound s
    → IsBlock r
    → IsSound (copy_block r s).0 × (held (copy_block r s).0 ≡ r)
copy_block-lem none s e h b = unfold copy_block in (h, held-none s e)
copy_block-lem (some (bytes, sz)) s e h b =
    rw (copy_block-copied bytes sz s b) (copied-IsSound bytes sz b, held-copied bytes sz)

fill_block-lem :
    (r : Option BlockData) (s : Snapshot)
    → IsSound s
    → IsBlock r
    → IsSound (fill_block r s).0 × (held (fill_block r s).0 ≡ or_block (held s) r)
fill_block-lem r s h b = elim (Bool-cases s.has_data) [
  | inl e ↦ let (d, at) = held-some s h e in rw (fill_block-held r s e) (h, rw at)
  | inr e ↦
      let (sound, same) = copy_block-lem r s e h b in
      rw (fill_block-copy r s e, held-none s e) (sound, same)
]

held_at-cons :
    (s : Snapshot) (ss : List Snapshot) (j : ℕ)
    → (held_at (s ∷ ss) 0 ≡ held s) × (held_at (s ∷ ss) (suc j) ≡ held_at ss j)
unfolding held_at
held_at-cons s ss j = (refl, refl)

pub fill_from-lem :
    (look : ℕ → Option BlockData) (k : ℕ) (ss : List Snapshot)
    → ((i : ℕ) → IsBlock (look i))
    → AllSound ss
    → AllSound (fill_from look k ss).0
      × (length (fill_from look k ss).0 ≡ length ss)
      × ((j : ℕ)
          → j < length ss
          → held_at (fill_from look k ss).0 j ≡ or_block (held_at ss j) (look (k + j)))
unfolding fill_from
fill_from-lem look k [] b h = (tt, refl, λ j l. absurd (omega arith))
fill_from-lem look k (s ∷ ss) b h =
    let (sound, same) = fill_block-lem (look k) s h.0 (b k) in
    let (all, len, below) = fill_from-lem look (k + 1) ss b h.1 in
    ((sound, all), ap suc len, at same below)
  where
    at :
        held (fill_block (look k) s).0 ≡ or_block (held s) (look k)
        → ((j : ℕ)
            → j < length ss
            → held_at (fill_from look (k + 1) ss).0 j ≡ or_block (held_at ss j) (look (k + 1 + j)))
        → (j : ℕ) → j < suc (length ss)
        → held_at ((fill_block (look k) s).0 ∷ (fill_from look (k + 1) ss).0) j
          ≡ or_block (held_at (s ∷ ss) j) (look (k + j))
    at same rest zero l = rw ((held_at-cons _ _ 0).0, (held_at-cons s ss 0).0, add-zero) same
    at same rest (suc j) l =
        let e : k + suc j ≡ k + 1 + j = omega arith in
        rw ((held_at-cons _ _ j).1, (held_at-cons s ss j).1, e) (rest j (omega arith))
