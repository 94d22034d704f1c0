-- ===== src/Version/Remove/Laws/Shape.antt =====
-- What the removal of a version does to the list of versions, as a relation.
use smartbackup_fs.Base.{
  ℕ, ◌+◌, ◌<◌, ◌≡◌, ◌≢◌, refl, sym, ◌∙◌, some, List, [], ◌∷◌, arith, length, true, false, ◌==◌,
  Bool-cases, inl, inr, ==_iff, lt→ltb,
}
use native.Mathlib.Nat.{zero-add}
use smartbackup_fs.Version.Types.{VersionNode, head_addr}
use smartbackup_fs.Version.Lookup.{own_data, snapshot_get_block_data}
use smartbackup_fs.Version.Lookup.Laws.{has, IsLinked, resolve, since, or_block, AllSound}
use smartbackup_fs.Version.Remove.{unlink, adopt, adopt_all, fill_from, points_to, id_of}
use smartbackup_fs.Version.Remove.Fill.{IsBlock, resolve-IsBlock, fill_from-lem}

-- the version that inherits from the removed one, with its copies
unfoldable pub heir_of : List VersionNode → VersionNode → VersionNode → VersionNode
heir_of nodes del n =
    let (ss, added) = fill_from (snapshot_get_block_data nodes del.addr) 0 n.snapshots in
    record n {
      snapshots = ss;
      stored_bytes = n.stored_bytes + added;
      parent = del.parent;
      parent_id = id_of nodes del.parent;
    }

adopt-heir :
    (nodes : List VersionNode) (del n : VersionNode)
    → points_to n.parent del.addr ≡ true
    → (adopt nodes del n).0 ≡ heir_of nodes del n
unfolding adopt heir_of
adopt-heir nodes del n e = ground arith

adopt-other :
    (nodes : List VersionNode) (del n : VersionNode)
    → points_to n.parent del.addr ≡ false
    → adopt nodes del n ≡ (n, 0)
unfolding adopt
adopt-other nodes del n e = ground arith

-- The list without the version, from the list with it.
pub data Removed (nodes : List VersionNode) (del : VersionNode) (older : List VersionNode)
    : List VersionNode → List VersionNode → Type 0 where
  first : Removed nodes del older (del ∷ older) older
  heir : (n : VersionNode) → Removed nodes del older (n ∷ del ∷ older) (heir_of nodes del n ∷ older)
  above :
      (n : VersionNode) {ns ns' : List VersionNode}
      → head_addr ns ≢ some del.addr
      → Removed nodes del older ns ns'
      → Removed nodes del older (n ∷ ns) (n ∷ ns')

module _ (nodes : List VersionNode) (del : VersionNode) where
  points_below :
      (ns : List VersionNode) → has del.addr ns ≡ false → points_to (head_addr ns) del.addr ≡ false
  unfolding has
  points_below [] h = refl
  points_below (n ∷ ns) h = ground arith

  has_below :
      (a : ℕ) (n : VersionNode) (ns : List VersionNode) → has a (n ∷ ns) ≡ false → has a ns ≡ false
  unfolding has
  has_below a n ns h = ground arith

  adopt_all_below :
      (ns : List VersionNode)
      → IsLinked ns
      → has del.addr ns ≡ false
      → (adopt_all nodes del ns).0 ≡ ns
  unfolding adopt_all
  adopt_all_below [] l h = refl
  adopt_all_below (n ∷ ns) l h =
      let below = has_below del.addr n ns h in
      let e : points_to n.parent del.addr ≡ false = rw l.0 (points_below ns below) in
      rw (adopt-other nodes del n e, adopt_all_below ns l.4 below)

  not_pointed :
      (ns : List VersionNode)
      → points_to (head_addr ns) del.addr ≡ false
      → head_addr ns ≢ some del.addr
  not_pointed [] h e = cc
  not_pointed (n ∷ ns) h e = ground arith

  since-head :
      (ns : List VersionNode) → points_to (head_addr ns) del.addr ≡ true → since del.addr ns ≡ ns
  unfolding since
  since-head [] h = refl
  since-head (n ∷ ns) h = ground arith

  module _ (older : List VersionNode) (linked : IsLinked (del ∷ older)) where
    unlink-head : (adopt_all nodes del (unlink del.addr (del ∷ older))).0 ≡ older
    unfolding unlink
    unlink-head = rw ((==_iff del.addr del.addr).1 refl) (adopt_all_below older linked.4 linked.1)

    out-cons :
        (n : VersionNode) (r : List VersionNode)
        → (n.addr == del.addr) ≡ false
        → (adopt_all nodes del (unlink del.addr (n ∷ r))).0
          ≡ (adopt nodes del n).0 ∷ (adopt_all nodes del (unlink del.addr r)).0
    unfolding unlink adopt_all
    out-cons n r e = rw e

    pub Removed-out :
        (ns : List VersionNode)
        → IsLinked ns
        → since del.addr ns ≡ del ∷ older
        → Removed nodes del older ns (adopt_all nodes del (unlink del.addr ns)).0
    unfolding since
    Removed-out [] l e = absurd (cc)
    Removed-out (n ∷ r) l e = elim (Bool-cases (n.addr == del.addr)) [
      | inl here ↦ let same : n ∷ r ≡ del ∷ older = rw here at e in rw same (rw unlink-head first)
      | inr below ↦
          let e' : since del.addr r ≡ del ∷ older = rw below at e in
          elim (Bool-cases (points_to n.parent del.addr)) [
            | inl p ↦
                let r_is : r ≡ del ∷ older = sym (since-head r (rw l.0 at p)) ∙ e' in
                rw (out-cons n r below, adopt-heir nodes del n p, r_is, unlink-head) (heir n)
            | inr p ↦
                rw (out-cons n r below, adopt-other nodes del n p)
                  (above n (not_pointed r (rw l.0 at p)) (Removed-out r l.4 e'))
          ]
    ]

-- The heir stores each block that it inherited from the removed version or from below.
module _ (nodes : List VersionNode) (del : VersionNode) (older : List VersionNode) where
  -- what the climb from the removed version finds
  abbrev pub Inherits : Type 0
  Inherits =
      (i : ℕ)
      → snapshot_get_block_data nodes del.addr i ≡ or_block (own_data del i) (resolve older i)

  module _ (looks : Inherits) (linked : IsLinked (del ∷ older)) (n : VersionNode) where
    blocks : (i : ℕ) → IsBlock (snapshot_get_block_data nodes del.addr i)
    unfolding resolve
    blocks i = rw (looks i) (resolve-IsBlock (del ∷ older) i linked)

    pub own_data-heir :
        (i : ℕ)
        → n.snapshot_count ≡ length n.snapshots
        → i < n.snapshot_count
        → AllSound n.snapshots
        → own_data (heir_of nodes del n) i
          ≡ or_block (own_data n i) (or_block (own_data del i) (resolve older i))
    unfolding heir_of own_data
    own_data-heir i count lt sound =
        let look = snapshot_get_block_data nodes del.addr in
        let (all, len, at) = fill_from-lem look 0 n.snapshots blocks sound in
        rw (lt→ltb i n.snapshot_count lt) (at i (omega arith) ∙ rw (zero-add i, looks i))

    pub heir_of-IsLinked : IsLinked (n ∷ del ∷ older) → IsLinked (heir_of nodes del n ∷ older)
    unfolding heir_of has
    heir_of-IsLinked l =
        let look = snapshot_get_block_data nodes del.addr in
        let (all, len, at) = fill_from-lem look 0 n.snapshots blocks l.3 in
        (linked.0, has_below nodes del n.addr del older l.1, l.2 ∙ sym len, all, linked.4)
