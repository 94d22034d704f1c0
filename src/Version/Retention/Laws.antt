-- ===== src/Version/Retention/Laws.antt =====
-- What retention keeps: a valid chain, the important versions, at least one version, and every
-- block of every version that stays.
use smartbackup_fs.Base.{
  ℕ, ◌≤◌, ◌<◌, ◌≡◌, refl, ◌∙◌, ap, some, List, [], ◌∷◌, arith, true, false, Bool, ◌==◌,
  if◌then◌else◌, Bool-cases, Option-cases, ◌⊎◌, inl, inr,
}
use smartbackup_fs.Version.Types.{VersionNode, VersionChain, VersionState, find_version}
use smartbackup_fs.Version.Lookup.{snapshot_get_block_data}
use smartbackup_fs.Version.Lookup.Laws.{has, IsLinked}
use smartbackup_fs.Version.Remove.{version_remove_node_locked}
use smartbackup_fs.Version.Remove.Laws.{Covers}
use smartbackup_fs.Version.Remove.Laws.Shape.{Removed, first, heir, above, heir_of}
use smartbackup_fs.Version.Remove.Kept.{
  IsValid, after, shape, length-Removed, version_remove_node_locked-IsValid,
  version_remove_node_locked-reads,
}
use smartbackup_fs.Version.Retention.{
  Policy, keep, is_due, retention_step, retention_loop, version_apply_retention_locked, is_pinned,
}

-- a version of the chain that is marked as important
unfoldable pub has_important : ℕ → List VersionNode → Bool
has_important a [] = false
has_important a (n ∷ ns) = if n.addr == a then n.is_important else has_important a ns

-- every version has room for the block
abbrev pub IsRoomy : ℕ → List VersionNode → Type 0
IsRoomy i [] = Unit
IsRoomy i (n ∷ ns) = (i < n.snapshot_count) × IsRoomy i ns

-- What every round, and so the whole loop, keeps.
pub record Keeps (s t : VersionChain) : Type 0 where
  pub valid : IsValid t
  pub nonempty : 0 < s.count → 0 < t.count
  pub subset : (a : ℕ) → has a t.nodes ≡ true → has a s.nodes ≡ true
  pub important : (a : ℕ) → has_important a s.nodes ≡ true → has_important a t.nodes ≡ true
  pub roomy : (i : ℕ) → IsRoomy i s.nodes → IsRoomy i t.nodes
  pub reads :
      (a i : ℕ)
      → has a t.nodes ≡ true
      → IsRoomy i s.nodes
      → snapshot_get_block_data t.nodes a i ≡ snapshot_get_block_data s.nodes a i

pub Keeps-refl : (s : VersionChain) → IsValid s → Keeps s s
Keeps-refl s v = record {
  valid = v;
  nonempty = λ h. h;
  subset = λ a h. h;
  important = λ a h. h;
  roomy = λ i h. h;
  reads = λ a i h r. refl;
}

pub Keeps-trans : {s t u : VersionChain} → Keeps s t → Keeps t u → Keeps s u
Keeps-trans h k = record {
  valid = k.valid;
  nonempty = λ p. k.nonempty (h.nonempty p);
  subset = λ a p. h.subset a (k.subset a p);
  important = λ a p. k.important a (h.important a p);
  roomy = λ i p. k.roomy i (h.roomy i p);
  reads = λ a i p r. k.reads a i p (h.roomy i r) ∙ h.reads a i (k.subset a p) r;
}

IsRoomy-Covers : (d i : ℕ) (ns : List VersionNode) → IsRoomy i ns → Covers d i ns
IsRoomy-Covers d i [] h = tt
IsRoomy-Covers d i (n ∷ ns) h = (λ e. h.0, IsRoomy-Covers d i ns h.1)

module _ (nodes : List VersionNode) (del : VersionNode) (older : List VersionNode) where
  IsRoomy-Removed :
      {ns ns' : List VersionNode} (i : ℕ)
      → Removed nodes del older ns ns'
      → IsRoomy i ns
      → IsRoomy i ns'
  unfolding heir_of
  IsRoomy-Removed i first h = h.1
  IsRoomy-Removed i (heir n) h = (h.0, h.1.1)
  IsRoomy-Removed i (above n _ r) h = (h.0, IsRoomy-Removed i r h.1)

  has_important-Removed :
      {ns ns' : List VersionNode} (a : ℕ)
      → Removed nodes del older ns ns'
      → del.is_important ≡ false
      → has_important a ns ≡ true
      → has_important a ns' ≡ true
  unfolding has_important heir_of
  has_important-Removed a first e h = ground arith
  has_important-Removed a (heir n) e h = ground arith
  has_important-Removed a (above n _ r) e h = ground (arith, has_important-Removed a r)

  has-Removed_back :
      {ns ns' : List VersionNode} (a : ℕ)
      → Removed nodes del older ns ns'
      → has a ns' ≡ true
      → has a ns ≡ true
  unfolding has heir_of
  has-Removed_back a first h = ground arith
  has-Removed_back a (heir n) h = ground arith
  has-Removed_back a (above n _ r) h = ground (arith, has-Removed_back a r)

  pub has-Removed_gone :
      {ns ns' : List VersionNode}
      → Removed nodes del older ns ns'
      → IsLinked ns
      → (has del.addr ns ≡ true) × (has del.addr ns' ≡ false)
  unfolding has heir_of
  has-Removed_gone first l = ground arith
  has-Removed_gone (heir n) l = ground arith
  has-Removed_gone (above n _ r) l = ground (arith, has-Removed_gone r l.4)

module _ (s : VersionState) (cur : VersionNode) (v : IsValid s.chain) where
  removal-Keeps :
      find_version cur.addr s.chain.nodes ≡ some cur
      → cur.is_important ≡ false
      → 1 < s.chain.count
      → Keeps s.chain (after s cur)
  removal-Keeps found plain many =
      let (older, r, looks, linked) = shape s cur v found in
      let gone = (has-Removed_gone _ _ _ r v.linked).1 in
      let v' = version_remove_node_locked-IsValid s cur v found in
      record {
        valid = v';
        nonempty = λ h. omega (arith, v'.counted, v.counted, length-Removed _ _ _ r);
        subset = λ a. has-Removed_back _ _ _ a r;
        important = λ a. has_important-Removed _ _ _ a r plain;
        roomy = λ i. IsRoomy-Removed _ _ _ i r;
        reads = λ a i h room.
            version_remove_node_locked-reads s cur v found a i (λ e. cc)
              (has-Removed_back _ _ _ a r h) (IsRoomy-Covers cur.addr i _ room);
      }

  module _ (p : Policy) (now total : ℕ) where
    is_due-many : 1 ≤ keep p → is_due p now s.chain.count total cur ≡ true → 1 < s.chain.count
    unfolding is_due
    is_due-many some_kept h = ground arith

    step_stays :
        cur.is_important ≡ true ⊎ is_due p now s.chain.count total cur ≡ false
        → retention_step p now (s, total) cur ≡ (s, total)
    unfolding retention_step
    step_stays h = ground arith

    step_goes :
        cur.is_important ≡ false
        → is_due p now s.chain.count total cur ≡ true
        → (retention_step p now (s, total) cur).0 ≡ (version_remove_node_locked s cur).0
    unfolding retention_step
    step_goes h k = ground arith

    pub retention_step-Keeps :
        1 ≤ keep p
        → find_version cur.addr s.chain.nodes ≡ some cur
        → Keeps s.chain (retention_step p now (s, total) cur).0.chain
    retention_step-Keeps some_kept found = elim (Bool-cases cur.is_important) [
      | inl e ↦ rw (step_stays (inl e)) (Keeps-refl s.chain v)
      | inr e ↦ elim (Bool-cases (is_due p now s.chain.count total cur)) [
        | inr k ↦ rw (step_stays (inr k)) (Keeps-refl s.chain v)
        | inl k ↦ rw (step_goes e k) (removal-Keeps found e (is_due-many some_kept k))
      ]
    ]

addr-find_version :
    (a : ℕ) (ns : List VersionNode) (n : VersionNode) → find_version a ns ≡ some n → n.addr ≡ a
unfolding find_version
addr-find_version a [] n h = absurd (cc)
addr-find_version a (m ∷ ns) n h = ground (arith, addr-find_version a ns n)

pub find_version-addr :
    (a : ℕ) (ns : List VersionNode) (n : VersionNode)
    → find_version a ns ≡ some n
    → find_version n.addr ns ≡ some n
find_version-addr a ns n h = ap (λ b. find_version b ns) (addr-find_version a ns n h) ∙ h

module _ (p : Policy) (now : ℕ) (some_kept : 1 ≤ keep p) where
  pub retention_loop-Keeps :
      (addrs : List ℕ) (s : VersionState) (total : ℕ)
      → IsValid s.chain
      → Keeps s.chain (retention_loop p now addrs (s, total)).0.chain
  unfolding retention_loop
  retention_loop-Keeps [] s total v = Keeps-refl s.chain v
  retention_loop-Keeps (a ∷ rest) s total v = elim (Option-cases (find_version a s.chain.nodes)) [
    | inl e ↦ rw (e, retention_loop) (retention_loop-Keeps rest s total v)
    | inr (cur, e) ↦
        let k =
          retention_step-Keeps s cur v p now total some_kept
            (find_version-addr a s.chain.nodes cur e) in
        let (s', total') = retention_step p now (s, total) cur in
        rw (e, retention_loop) (Keeps-trans k (retention_loop-Keeps rest s' total' k.valid))
  ]

  -- Retention with a policy that keeps at least one version leaves a valid chain, from which no
  -- important version is missing, which is not empty if it was not, and in which every version
  -- that stays reads as before, at each block for which all versions have room.
  pub version_apply_retention_locked-Keeps :
      (s : VersionState)
      → IsValid s.chain
      → Keeps s.chain (version_apply_retention_locked p s now).chain
  unfolding version_apply_retention_locked
  version_apply_retention_locked-Keeps s v = elim (Bool-cases (is_pinned s.meta)) [
    | inl e ↦ rw e (Keeps-refl s.chain v)
    | inr e ↦ rw e (retention_loop-Keeps _ s _ v)
  ]
