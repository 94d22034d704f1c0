-- ===== src/Version/Query/Laws.antt =====
-- What the queries select: the version by time, by id, and the difference of two versions.
use smartbackup_fs.Base.{
  ℕ, zero, suc, ◌+◌, ◌≤◌, ◌<◌, ◌≡◌, refl, sym, ap, ◌∙◌, Option, none, some, List, [], ◌∷◌,
  get_elem?, false, leb, ◌==◌, ◌&&◌, if◌then◌else◌, ◌⊎◌, inl, inr, Bool-cases, arith,
}
use smartbackup_fs.Version.Types.{VersionNode, VersionChain}
use smartbackup_fs.Version.Query.{
  is_better, best_before, select_version, nearer, nearest, version_manager_get_version_by_time,
  count_diffs,
}

-- a version among the nodes, with its place
abbrev pub Among : VersionNode → List VersionNode → Type 0
Among n ns = (i : ℕ) × (get_elem? ns i ≡ some n)

-- The accumulator only moves forward in time.
nearest-grows :
    (target : ℕ) (ns : List VersionNode) (acc : ℕ × ℕ) → acc.1 ≤ (nearest target ns acc).1
unfolding nearest
nearest-grows target [] acc = omega arith
nearest-grows target (n ∷ ns) acc = ground (arith, nearest-grows target ns (nearer target acc n))

nearest-bound :
    (target : ℕ) (n : VersionNode) (ns : List VersionNode) (acc : ℕ × ℕ) (i : ℕ)
    → get_elem? ns i ≡ some n
    → n.create_time ≤ target
    → n.create_time ≤ (nearest target ns acc).1
unfolding nearest
nearest-bound target n [] acc i h l = absurd (cc)
nearest-bound target n (m ∷ ns) acc zero h l =
    let e : m.create_time ≡ n.create_time =
      (let same : m ≡ n = cc in ap (λ x. x.create_time) same) in
    ground (arith, nearest-grows target ns (nearer target acc m))
nearest-bound target n (m ∷ ns) acc (suc i) h l =
    nearest-bound target n ns (nearer target acc m) i h l

-- The result is the accumulator, or a version that is not too new.
nearest-from :
    (target : ℕ) (ns : List VersionNode) (acc : ℕ × ℕ)
    → (nearest target ns acc ≡ acc)
      ⊎ ((m : VersionNode) × Among m ns
          × (m.create_time ≤ target)
          × (nearest target ns acc ≡ (m.version_id, m.create_time)))
unfolding nearest
nearest-from target [] acc = inl refl
nearest-from target (n ∷ ns) acc = elim (nearest-from target ns (nearer target acc n)) [
  | inr (m, (i, at), l, e) ↦ inr (m, (suc i, at), l, e)
  | inl e ↦ elim (Bool-cases (leb n.create_time target && leb acc.1 n.create_time)) [
    | inl taken ↦ inr (n, (0, refl), ground arith, e ∙ (rw taken refl))
    | inr kept ↦ inl (e ∙ (rw kept refl))
  ]
]

-- Asked for a positive time that some version does not lie after, the lookup by time gives the id of
-- a version of the chain that does not lie after it either, and is at least as new as that version.
pub version_manager_get_version_by_time-newest :
    (chain : VersionChain) (target : ℕ) (n : VersionNode)
    → 0 < target
    → Among n chain.nodes
    → n.create_time ≤ target
    → 0 < n.create_time
    → (m : VersionNode) × Among m chain.nodes
      × (m.create_time ≤ target)
      × (n.create_time ≤ m.create_time)
      × (version_manager_get_version_by_time (some chain) target ≡ m.version_id)
unfolding version_manager_get_version_by_time
version_manager_get_version_by_time-newest chain target n pos (i, at) l some_time =
    let bound = nearest-bound target n chain.nodes (0, 0) i at l in
    let asked : (target == 0) ≡ false = ground arith in
    elim (nearest-from target chain.nodes (0, 0)) [
      | inl e ↦ absurd (ground arith)
      | inr (m, there, l', e) ↦
          (let newer : n.create_time ≤ m.create_time = omega (arith, ap (λ r. r.1) e) in
            (m, there, l', newer, rw asked (ap (λ r. r.0) e)))
    ]

-- the time of the best version so far
abbrev time_of : Option VersionNode → ℕ
time_of none = 0
time_of (some n) = n.create_time

-- what one round of the loop for names makes of the best version
abbrev better : ℕ → Option VersionNode → VersionNode → Option VersionNode
better target best n = if leb n.create_time target && is_better n best then some n else best

-- One round of either loop reaches the same time.
nearer-better :
    (target : ℕ) (best : Option VersionNode) (n : VersionNode) (id : ℕ)
    → (id' : ℕ) × (nearer target (id, time_of best) n ≡ (id', time_of (better target best n)))
nearer-better target none n id = elim (Bool-cases (leb n.create_time target)) [
  | inl e ↦ (n.version_id, ground arith)
  | inr e ↦ (id, ground arith)
]
nearer-better target (some b) n id = elim (Bool-cases (leb n.create_time target)) [
  | inr e ↦ (id, ground arith)
  | inl e ↦ elim (Bool-cases (leb b.create_time n.create_time)) [
    | inl f ↦ (n.version_id, ground arith)
    | inr f ↦ (id, ground arith)
  ]
]

best_before-nearest :
    (target : ℕ) (ns : List VersionNode) (best : Option VersionNode) (id : ℕ)
    → time_of (best_before target ns best) ≡ (nearest target ns (id, time_of best)).1
unfolding best_before nearest
best_before-nearest target [] best id = refl
best_before-nearest target (n ∷ ns) best id =
    let (id', e) = nearer-better target best n id in
    best_before-nearest target ns (better target best n) id'
    ∙ ap (λ acc. (nearest target ns acc).1) (sym e)

-- A name that is a time, at which some version after 1970 is selected, selects one that is as new as
-- the version whose id the lookup by time gives; the two may differ when their times are equal.
pub select_version-by_time :
    (chain : VersionChain) (target : ℕ) (m : VersionNode)
    → 0 < target
    → select_version 0 target chain.nodes ≡ some m
    → 0 < m.create_time
    → (k : VersionNode) × Among k chain.nodes
      × (version_manager_get_version_by_time (some chain) target ≡ k.version_id)
      × (k.create_time ≡ m.create_time)
unfolding version_manager_get_version_by_time select_version
select_version-by_time chain target m pos h after =
    let asked : (target == 0) ≡ false = ground arith in
    let best : best_before target chain.nodes none ≡ some m = rw (asked, select_version) at h in
    let time : m.create_time ≡ (nearest target chain.nodes (0, 0)).1 =
      sym (ap time_of best) ∙ best_before-nearest target chain.nodes none 0 in
    elim (nearest-from target chain.nodes (0, 0)) [
      | inl e ↦ absurd (omega (arith, time, ap (λ r. r.1) e))
      | inr (k, there, l, e) ↦
          (k, there, rw asked (ap (λ r. r.0) e), sym (ap (λ r. r.1) e) ∙ sym time)
    ]

count_diffs_self : (n : ℕ) (a : VersionNode) (i : ℕ) → count_diffs n a a i ≡ 0
unfolding count_diffs
count_diffs_self zero a i = refl
count_diffs_self (suc n) a i = ground (arith, count_diffs_self n a (i + 1))
