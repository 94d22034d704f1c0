-- ===== src/Version/Remove/Kept.antt =====
-- `version_remove_node_locked` keeps a chain well formed, and keeps every block of every version
-- that stays.
use smartbackup_fs.Base.{
  ℕ, ◌+◌, ◌-◌, ◌≤◌, ◌<◌, ◌≡◌, ◌≢◌, refl, sym, ◌∙◌, ap, some, List, [], ◌∷◌, arith, length, true,
  ◌==◌, Bool-cases, inl, inr,
}
use mathlib.Core.Path.{subst}
use smartbackup_fs.Version.Types.{VersionNode, VersionChain, VersionState, head_id, find_version}
use smartbackup_fs.Version.Lookup.{snapshot_get_block_data, own_data}
use smartbackup_fs.Version.Lookup.Laws.{
  has, IsLinked, resolve, since, or_block, snapshot_get_block_data-resolve, since-IsLinked,
}
use smartbackup_fs.Version.Remove.{version_remove_node_locked}
use smartbackup_fs.Version.Remove.Laws.{Covers, Removed-IsLinked, block_of-Removed}
use smartbackup_fs.Version.Remove.Laws.Shape.{
  Removed, first, heir, above, Removed-out, heir_of, Inherits,
}

-- ids fall from the newest version to the oldest, and are positive
abbrev pub Descending : List VersionNode → Type 0
Descending [] = Unit
Descending (n ∷ ns) = (head_id ns < n.version_id) × Descending ns

pub record IsValid (c : VersionChain) : Type 0 where
  pub linked : IsLinked c.nodes
  pub descending : Descending c.nodes
  pub counted : c.count ≡ length c.nodes

since-found :
    (del : VersionNode) (ns : List VersionNode)
    → find_version del.addr ns ≡ some del
    → (older : List VersionNode) × (since del.addr ns ≡ del ∷ older)
unfolding since find_version
since-found del [] h = absurd (cc)
since-found del (n ∷ ns) h = elim (Bool-cases (n.addr == del.addr)) [
  | inl here ↦
      let e : some n ≡ some del = rw here at h in (ns, rw here (let same : n ≡ del = cc in rw same))
  | inr below ↦ let (older, e) = since-found del ns (rw below at h) in (older, rw below e)
]

resolve-cons :
    (n : VersionNode) (ns : List VersionNode) (i : ℕ)
    → resolve (n ∷ ns) i ≡ or_block (own_data n i) (resolve ns i)
unfolding resolve
resolve-cons n ns i = refl

has-found :
    (del : VersionNode) (ns : List VersionNode)
    → find_version del.addr ns ≡ some del
    → has del.addr ns ≡ true
unfolding has find_version
has-found del [] h = absurd (cc)
has-found del (n ∷ ns) h = ground (arith, has-found del ns)

module _ (nodes : List VersionNode) (del : VersionNode) (older : List VersionNode) where
  pub has-Removed_other :
      {ns ns' : List VersionNode} (a : ℕ)
      → a ≢ del.addr
      → Removed nodes del older ns ns'
      → has a ns ≡ true
      → has a ns' ≡ true
  unfolding has heir_of
  has-Removed_other a ne first h = ground arith
  has-Removed_other a ne (heir n) h = ground arith
  has-Removed_other a ne (above n _ r) h = ground (arith, has-Removed_other a ne r)

  pub length-Removed :
      {ns ns' : List VersionNode} → Removed nodes del older ns ns' → length ns ≡ length ns' + 1
  length-Removed first = omega arith
  length-Removed (heir n) = omega arith
  length-Removed (above n _ r) = omega (arith, length-Removed r)

  head_id-Removed :
      {ns ns' : List VersionNode}
      → Removed nodes del older ns ns'
      → Descending ns
      → head_id ns' ≤ head_id ns
  unfolding heir_of
  head_id-Removed first h = omega arith
  head_id-Removed (heir n) h = omega arith
  head_id-Removed (above n _ r) h = omega arith

  Removed-Descending :
      {ns ns' : List VersionNode} → Removed nodes del older ns ns' → Descending ns → Descending ns'
  unfolding heir_of
  Removed-Descending first h = h.1
  Removed-Descending (heir n) h = (omega arith, h.1.1)
  Removed-Descending (above n _ r) h =
      (omega (arith, head_id-Removed r h.1), Removed-Descending r h.1)

module _ (s : VersionState) (del : VersionNode) where
  abbrev pub after : VersionChain
  after = (version_remove_node_locked s del).0.chain

  module _ (v : IsValid s.chain) (found : find_version del.addr s.chain.nodes ≡ some del) where
    pub count-after : after.count ≡ s.chain.count - 1
    unfolding version_remove_node_locked
    count-after = refl

    pub shape :
        (older : List VersionNode) × Removed s.chain.nodes del older s.chain.nodes after.nodes
        × Inherits s.chain.nodes del older
        × IsLinked (del ∷ older)
    unfolding version_remove_node_locked
    shape =
        let nodes = s.chain.nodes in
        let (older, e) = since-found del nodes found in
        let linked : IsLinked (del ∷ older) =
          subst IsLinked e (since-IsLinked del.addr nodes v.linked) in
        (
          older,
          Removed-out nodes del older linked nodes v.linked e,
          λ i.
              snapshot_get_block_data-resolve nodes del.addr i v.linked (has-found del nodes found)
              ∙ ap (λ ns. resolve ns i) e
              ∙ resolve-cons del older i,
          linked,
        )

    -- The chain that a version is removed from stays valid: linked, with falling ids, and counted.
    pub version_remove_node_locked-IsValid : IsValid after
    version_remove_node_locked-IsValid =
        let (older, r, looks, linked) = shape in
        record {
          linked = Removed-IsLinked s.chain.nodes del older looks linked r v.linked;
          descending = Removed-Descending _ _ _ r v.descending;
          counted = omega (arith, length-Removed _ _ _ r, count-after, v.counted);
        }

    -- Every block of every other version reads as before, if the version that inherited from the
    -- removed one has room for the block.
    pub version_remove_node_locked-reads :
        (a i : ℕ)
        → a ≢ del.addr
        → has a s.chain.nodes ≡ true
        → Covers del.addr i s.chain.nodes
        → snapshot_get_block_data after.nodes a i ≡ snapshot_get_block_data s.chain.nodes a i
    version_remove_node_locked-reads a i ne there room =
        let (older, r, looks, linked) = shape in
        snapshot_get_block_data-resolve after.nodes a i version_remove_node_locked-IsValid.linked
          (has-Removed_other _ _ _ a ne r there)
        ∙ block_of-Removed s.chain.nodes del older looks linked i a ne r v.linked room
        ∙ sym (snapshot_get_block_data-resolve s.chain.nodes a i v.linked there)
