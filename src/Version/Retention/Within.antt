-- ===== src/Version/Retention/Within.antt =====
-- Retention within its limits, and over a chain of important versions.
use smartbackup_fs.Base.{
  ℕ, ◌≤◌, ◌<◌, ◌≡◌, refl, sym, ◌∙◌, ap, some, List, [], ◌∷◌, ◌++◌, arith, true, false, Bool-cases,
  Option-cases, inl, inr, ◌⊎◌, map, reverse,
}
use mathlib.Core.List.{reverse-append}
use mathlib.Core.Path.{subst}
use smartbackup_fs.Version.Types.{VersionNode, VersionState, find_version}
use smartbackup_fs.Version.Lookup.Laws.{has, IsLinked}
use smartbackup_fs.Version.Remove.{version_remove_node_locked}
use smartbackup_fs.Version.Remove.Kept.{IsValid, shape}
use smartbackup_fs.Version.Retention.{
  Policy, keep, is_due, size_limit, retention_step, retention_loop, total_stored,
  version_apply_retention_locked, is_pinned, oldest_first,
}
use smartbackup_fs.Version.Retention.Laws.{has-Removed_gone}

-- neither the number of versions nor their size calls for a removal
abbrev pub IsWithin : Policy → ℕ → ℕ → Type 0
IsWithin p count total = (count ≤ keep p) × (size_limit p ≡ 0 ⊎ (total ≤ size_limit p))

module _ (p : Policy) (now : ℕ) where
  is_due_within :
      (count total : ℕ) (n : VersionNode)
      → IsWithin p count total
      → is_due p now count total n ≡ false
  unfolding is_due
  is_due_within count total n h = ground arith

  step_within :
      (s : VersionState) (total : ℕ) (n : VersionNode)
      → IsWithin p s.chain.count total
      → retention_step p now (s, total) n ≡ (s, total)
  unfolding retention_step
  step_within s total n h = ground (arith, is_due_within s.chain.count total n h)

  loop_within :
      (addrs : List ℕ) (s : VersionState) (total : ℕ)
      → IsWithin p s.chain.count total
      → retention_loop p now addrs (s, total) ≡ (s, total)
  unfolding retention_loop
  loop_within [] s total h = refl
  loop_within (a ∷ rest) s total h = elim (Option-cases (find_version a s.chain.nodes)) [
    | inl e ↦ rw (e, retention_loop) (loop_within rest s total h)
    | inr (n, e) ↦ rw (e, retention_loop, step_within s total n h) (loop_within rest s total h)
  ]

  -- Retention that is within its limits changes nothing.
  pub retention_within :
      (s : VersionState)
      → IsWithin p s.chain.count (total_stored s.chain.nodes)
      → version_apply_retention_locked p s now ≡ s
  unfolding version_apply_retention_locked
  retention_within s h = elim (Bool-cases (is_pinned s.meta)) [
    | inl e ↦ rw e
    | inr e ↦ rw e (ap (λ r. r.0) (loop_within _ s _ h))
  ]

-- versions that are all marked as important
abbrev pub AllImportant : List VersionNode → Type 0
AllImportant [] = Unit
AllImportant (n ∷ ns) = (n.is_important ≡ true) × AllImportant ns

abbrev All : (ℕ → Type 0) → List ℕ → Type 0
All P [] = Unit
All P (a ∷ rest) = P a × All P rest

All-append : (P : ℕ → Type 0) (xs ys : List ℕ) → All P xs → All P ys → All P (xs ++ ys)
All-append P [] ys h k = k
All-append P (x ∷ xs) ys h k = (h.0, All-append P xs ys h.1 k)

All-reverse : (P : ℕ → Type 0) (xs : List ℕ) → All P xs → All P (reverse xs)
All-reverse P [] h = h
All-reverse P (x ∷ xs) h =
    rw (reverse-append (x ∷ []) xs)
      (All-append P (reverse xs) (x ∷ []) (All-reverse P xs h.1) (h.0, tt))

module _ (p : Policy) (now : ℕ) where
  abbrev IsSpared : VersionState → ℕ → Type 0
  IsSpared s a = (n : VersionNode) → find_version a s.chain.nodes ≡ some n → n.is_important ≡ true

  step_spares :
      (s : VersionState) (total : ℕ) (n : VersionNode)
      → n.is_important ≡ true
      → retention_step p now (s, total) n ≡ (s, total)
  unfolding retention_step
  step_spares s total n h = ground arith

  -- the loop over spared versions, and then over others
  loop_spares :
      (addrs more : List ℕ) (s : VersionState) (total : ℕ)
      → All (IsSpared s) addrs
      → retention_loop p now (addrs ++ more) (s, total) ≡ retention_loop p now more (s, total)
  unfolding retention_loop
  loop_spares [] more s total h = refl
  loop_spares (a ∷ rest) more s total h = elim (Option-cases (find_version a s.chain.nodes)) [
    | inl e ↦ rw (e, retention_loop) (loop_spares rest more s total h.1)
    | inr (n, e) ↦
        let r = loop_spares rest more s total h.1 in
        rw (e, retention_loop, step_spares s total n (h.0 n e)) r
  ]

  step_due :
      (s : VersionState) (total : ℕ) (n : VersionNode)
      → n.is_important ≡ false
      → 0 < size_limit p
      → size_limit p < total
      → 1 < s.chain.count
      → (retention_step p now (s, total) n).0 ≡ (version_remove_node_locked s n).0
  unfolding retention_step is_due
  step_due s total n plain on over many = ground arith

  loop_last :
      (s : VersionState) (total : ℕ) (n : VersionNode)
      → find_version n.addr s.chain.nodes ≡ some n
      → (retention_loop p now (n.addr ∷ []) (s, total)).0 ≡ (retention_step p now (s, total) n).0
  unfolding retention_loop
  loop_last s total n e = rw (e, retention_loop)

find_first : (n : VersionNode) (ns : List VersionNode) → find_version n.addr (n ∷ ns) ≡ some n
unfolding find_version
find_first n ns = ground arith

spared_below :
    (a : ℕ) (n : VersionNode) (ns : List VersionNode)
    → AllImportant ns
    → find_version a ns ≡ some n
    → n.is_important ≡ true
unfolding find_version
spared_below a n [] h e = absurd (cc)
spared_below a n (m ∷ ns) h e = ground (arith, spared_below a n ns)

spared-All :
    (vn : VersionNode) (ns : List VersionNode) (ms : List VersionNode)
    → AllImportant ms
    → has vn.addr ns ≡ false
    → All
        (λ a. (n : VersionNode) → find_version a (vn ∷ ms) ≡ some n → n.is_important ≡ true)
        (map (λ n. n.addr) ns)
unfolding find_version has
spared-All vn [] ms h fresh = tt
spared-All vn (m ∷ ns) ms h fresh =
    (λ n e. ground (arith, spared_below m.addr n ms), spared-All vn ns ms h (ground arith))

-- A version at the head of a chain whose other versions are all important is removed, if it is not
-- important and the chain takes more room than the limit.
pub retention_removes_head :
    (p : Policy) (now : ℕ) (s : VersionState) (vn : VersionNode) (older : List VersionNode)
    → s.chain.nodes ≡ vn ∷ older
    → IsValid s.chain
    → AllImportant older
    → 1 < s.chain.count
    → vn.is_important ≡ false
    → is_pinned s.meta ≡ false
    → 0 < size_limit p
    → size_limit p < total_stored s.chain.nodes
    → has vn.addr (version_apply_retention_locked p s now).chain.nodes ≡ false
unfolding version_apply_retention_locked
retention_removes_head p now s vn older e v h many plain unpinned on over =
    let linked : IsLinked (vn ∷ older) = subst IsLinked e v.linked in
    let total = total_stored s.chain.nodes in
    let found : find_version vn.addr s.chain.nodes ≡ some vn =
      ap (find_version vn.addr) e ∙ find_first vn older in
    let (old, r, looks, below) = shape s vn v found in
    let order : oldest_first s.chain.nodes ≡ reverse (map (λ n. n.addr) older) ++ (vn.addr ∷ []) =
      ap oldest_first e ∙ reverse-append (vn.addr ∷ []) (map (λ n. n.addr) older) in
    let spared : All (IsSpared p now s) (reverse (map (λ n. n.addr) older)) = All-reverse _ _ (
      subst
        (λ ns.
          All (λ a. (n : VersionNode) → find_version a ns ≡ some n → n.is_important ≡ true)
            (map (λ n. n.addr) older))
        (sym e) (spared-All vn older older h linked.1)) in
    let run : (retention_loop p now (oldest_first s.chain.nodes) (s, total)).0
        ≡ (version_remove_node_locked s vn).0 =
      ap (λ l. (retention_loop p now l (s, total)).0) order
      ∙ ap (λ t. t.0) (loop_spares p now _ (vn.addr ∷ []) s total spared)
      ∙ loop_last p now s total vn found
      ∙ step_due p now s total vn plain on over many in
    rw unpinned (ap (λ t. has vn.addr t.chain.nodes) run ∙ (has-Removed_gone _ _ _ r v.linked).1)
