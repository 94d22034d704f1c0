-- ===== src/Version/Remove/Laws.antt =====
-- Removing a version from a well-linked chain: the chain stays well linked, and what can be read of
-- every other version stays the same.
pub mod Shape
use smartbackup_fs.Base.{
  ℕ, suc, ◌+◌, ◌-◌, ◌<◌, ◌≡◌, ◌≢◌, refl, sym, ◌∙◌, Option, none, some, List, [], ◌∷◌, arith, length,
  true, false, ◌==◌, if◌then◌else◌, Bool-cases, inl, inr,
}
use smartbackup_fs.Version.Types.{VersionNode, VersionState, head_addr, find_version}
use smartbackup_fs.Version.Lookup.{BlockData, own_data, snapshot_get_block_data}
use smartbackup_fs.Version.Lookup.Laws.{
  has, IsLinked, resolve, since, block_of, or_block, snapshot_get_block_data-resolve,
}
use smartbackup_fs.Version.Remove.{version_remove_node_locked, unlink, adopt_all}
use smartbackup_fs.Version.Remove.Laws.Shape.{
  Removed, first, heir, above, Removed-out, heir_of, own_data-heir, heir_of-IsLinked, Inherits,
}

-- The versions that inherit from the removed one have room for the block.
abbrev pub Covers : ℕ → ℕ → List VersionNode → Type 0
Covers del i [] = Unit
Covers del i (n ∷ ns) = (n.parent ≡ some del → i < n.snapshot_count) × Covers del i ns

resolve_below :
    (n : VersionNode) (ns ms : List VersionNode) (i : ℕ)
    → resolve ns i ≡ resolve ms i
    → resolve (n ∷ ns) i ≡ resolve (n ∷ ms) i
unfolding resolve
resolve_below n ns ms i e = rw e

since_other :
    (a : ℕ) (n : VersionNode) (ns : List VersionNode) (i : ℕ)
    → a ≢ n.addr
    → block_of ns a i ≡ block_of (n ∷ ns) a i
unfolding since
since_other a n ns i ne = ground arith

module _ (nodes : List VersionNode) (del : VersionNode) (older : List VersionNode) where
  module _ (looks : Inherits nodes del older) (linked : IsLinked (del ∷ older)) where
    has-Removed :
        {ns ns' : List VersionNode} (a : ℕ)
        → Removed nodes del older ns ns'
        → has a ns ≡ false
        → has a ns' ≡ false
    unfolding has heir_of
    has-Removed a first h = ground arith
    has-Removed a (heir n) h = ground arith
    has-Removed a (above n ne r) h = ground (arith, has-Removed a r)

    head_addr-Removed :
        {ns ns' : List VersionNode}
        → Removed nodes del older ns ns'
        → head_addr ns ≢ some del.addr
        → head_addr ns' ≡ head_addr ns
    unfolding heir_of
    head_addr-Removed first ne = absurd (ne refl)
    head_addr-Removed (heir n) ne = refl
    head_addr-Removed (above n _ r) ne = refl

    pub Removed-IsLinked :
        {ns ns' : List VersionNode} → Removed nodes del older ns ns' → IsLinked ns → IsLinked ns'
    Removed-IsLinked first l = l.4
    Removed-IsLinked (heir n) l = heir_of-IsLinked nodes del older looks linked n l
    Removed-IsLinked (above n ne r) l = (
      l.0 ∙ sym (head_addr-Removed r ne),
      has-Removed n.addr r l.1,
      l.2,
      l.3,
      Removed-IsLinked r l.4,
    )

    absorb :
        (a b c : Option BlockData)
        → or_block (or_block a (or_block b c)) c ≡ or_block a (or_block b c)
    absorb none none none = refl
    absorb none none (some c) = refl
    absorb none (some b) c = refl
    absorb (some a) b c = refl

    module _ (i : ℕ) where
      resolve-heir :
          (n : VersionNode)
          → IsLinked (n ∷ del ∷ older)
          → Covers del.addr i (n ∷ del ∷ older)
          → resolve (heir_of nodes del n ∷ older) i ≡ resolve (n ∷ del ∷ older) i
      unfolding resolve
      resolve-heir n l room =
          rw (own_data-heir nodes del older looks linked n i l.2 (room.0 l.0) l.3)
            (absorb (own_data n i) (own_data del i) (resolve older i))

      resolve-Removed :
          {ns ns' : List VersionNode}
          → Removed nodes del older ns ns'
          → IsLinked ns
          → Covers del.addr i ns
          → head_addr ns ≢ some del.addr
          → resolve ns' i ≡ resolve ns i
      resolve-Removed first l room ne = absurd (ne refl)
      resolve-Removed (heir n) l room ne = resolve-heir n l room
      resolve-Removed (above n ne' r) l room ne =
          resolve_below n _ _ i (resolve-Removed r l.4 room.1 ne')

      -- every other version reads as before
      pub block_of-Removed :
          {ns ns' : List VersionNode} (a : ℕ)
          → a ≢ del.addr
          → Removed nodes del older ns ns'
          → IsLinked ns
          → Covers del.addr i ns
          → block_of ns' a i ≡ block_of ns a i
      unfolding since heir_of
      block_of-Removed a ne first l room = since_other a del older i ne
      block_of-Removed a ne (heir n) l room = elim (Bool-cases (n.addr == a)) [
        | inl here ↦ rw here (resolve-heir n l room)
        | inr other ↦ rw other (since_other a del older i ne)
      ]
      block_of-Removed a ne (above n ne' r) l room =
          let rest = block_of-Removed a ne r l.4 room.1 in
          elim (Bool-cases (n.addr == a)) [
            | inl here ↦ rw here (resolve_below n _ _ i (resolve-Removed r l.4 room.1 ne'))
            | inr other ↦ rw other rest
          ]
