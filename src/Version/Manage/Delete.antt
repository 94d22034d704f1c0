-- ===== src/Version/Manage/Delete.antt =====
-- What `version_manager_delete_version` does when it succeeds.
use smartbackup_fs.Base.{
  ℕ, ◌-◌, ◌≤◌, ◌<◌, ◌≡◌, ◌≢◌, refl, sym, ap, ◌∙◌, Option, none, some, List, [], ◌∷◌, true, false,
  Bool, ◌==◌, if◌then◌else◌, inl, inr, Bool-cases, Option-cases, arith, Status, success, eperm,
}
use mathlib.Core.Path.{subst}
use smartbackup_fs.Version.Types.{VersionNode, VersionState, find_version, head_id}
use smartbackup_fs.Version.Lookup.{snapshot_get_block_data}
use smartbackup_fs.Version.Lookup.Laws.{IsLinked, has}
use smartbackup_fs.Version.Remove.{version_remove_node_locked}
use smartbackup_fs.Version.Remove.Laws.{Covers}
use smartbackup_fs.Version.Remove.Laws.Shape.{Removed, first, heir, above, heir_of}
use smartbackup_fs.Version.Remove.Kept.{
  IsValid, Descending, after, shape, count-after, version_remove_node_locked-IsValid,
  version_remove_node_locked-reads,
}
use smartbackup_fs.Version.Query.{find_id}
use smartbackup_fs.Version.Manage.{version_manager_delete_version}

find_id-has :
    (id : ℕ) (ns : List VersionNode) (n : VersionNode)
    → find_id id ns ≡ some n
    → has n.addr ns ≡ true
unfolding find_id has
find_id-has id [] n h = absurd (cc)
find_id-has id (m ∷ ns) n h = elim (Bool-cases (m.version_id == id)) [
  | inl e ↦
      (let found : some m ≡ some n = rw (e, find_id) at h in
        let same : m ≡ n = cc in let at : m.addr ≡ n.addr = ap (λ k. k.addr) same in ground arith)
  | inr e ↦
      (let rest : find_id id ns ≡ some n = rw (e, find_id) at h in
        ground (arith, find_id-has id ns n rest))
]

apart : (a b : ℕ) (ns : List VersionNode) → has a ns ≡ false → has b ns ≡ true → (a == b) ≡ false
apart a b ns h k = elim (Bool-cases (a == b)) [
  | inr e ↦ e
  | inl e ↦ (let same : a ≡ b = ground arith in absurd (cc))
]

-- No address stands twice, so the version that is found is the one its pointer points to.
find_id-find_version :
    (id : ℕ) (ns : List VersionNode) (n : VersionNode)
    → IsLinked ns
    → find_id id ns ≡ some n
    → find_version n.addr ns ≡ some n
unfolding find_id find_version
find_id-find_version id [] n l h = absurd (cc)
find_id-find_version id (m ∷ ns) n l h = elim (Bool-cases (m.version_id == id)) [
  | inl e ↦
      (let found : some m ≡ some n = rw (e, find_id) at h in
        let same : m ≡ n = cc in
        let at : m.addr ≡ n.addr = ap (λ k. k.addr) same in
        let here : (m.addr == n.addr) ≡ true = ground arith in rw here found)
  | inr e ↦
      (let rest : find_id id ns ≡ some n = rw (e, find_id) at h in
        let below : (m.addr == n.addr) ≡ false =
          apart m.addr n.addr ns l.1 (find_id-has id ns n rest) in
        rw below (find_id-find_version id ns n l.4 rest))
]

find_id_low :
    (id : ℕ) (ns : List VersionNode) → Descending ns → head_id ns < id → find_id id ns ≡ none
unfolding find_id
find_id_low id [] d h = refl
find_id_low id (n ∷ ns) d h =
    let other : (n.version_id == id) ≡ false = ground arith in
    rw other (find_id_low id ns d.1 (omega (arith, d.0)))

id-heir_of :
    (nodes : List VersionNode) (del n : VersionNode)
    → (heir_of nodes del n).version_id ≡ n.version_id
unfolding heir_of
id-heir_of nodes del n = refl

module _ (nodes : List VersionNode) (del : VersionNode) (older : List VersionNode) where
  below_head :
      {ns ns' : List VersionNode}
      → Removed nodes del older ns ns'
      → Descending ns
      → del.version_id ≤ head_id ns
  below_head first d = omega arith
  below_head (heir n) d = omega (arith, d.0)
  below_head (above n _ r) d = omega (arith, d.0, below_head r d.1)

  find_id-Removed :
      {ns ns' : List VersionNode}
      → Removed nodes del older ns ns'
      → Descending ns
      → find_id del.version_id ns' ≡ none
  unfolding find_id
  find_id-Removed first d = find_id_low del.version_id older d.1 d.0
  find_id-Removed (heir n) d =
      let other : ((heir_of nodes del n).version_id == del.version_id) ≡ false =
        ground (arith, id-heir_of nodes del n, d.0) in
      rw other (find_id_low del.version_id older d.1.1 d.1.0)
  find_id-Removed (above n _ r) d =
      let other : (n.version_id == del.version_id) ≡ false =
        ground (arith, d.0, below_head r d.1) in
      rw other (find_id-Removed r d.1)

id-find_id :
    (id : ℕ) (ns : List VersionNode) (n : VersionNode) → find_id id ns ≡ some n → n.version_id ≡ id
unfolding find_id
id-find_id id [] n h = absurd (cc)
id-find_id id (m ∷ ns) n h = elim (Bool-cases (m.version_id == id)) [
  | inl e ↦
      (let found : some m ≡ some n = rw (e, find_id) at h in
        let same : m ≡ n = cc in
        let at : m.version_id ≡ n.version_id = ap (λ k. k.version_id) same in ground arith)
  | inr e ↦ (let rest : find_id id ns ≡ some n = rw (e, find_id) at h in id-find_id id ns n rest)
]

-- what deleting the version `del`, with this id, makes of a chain
pub record Deleted (id : ℕ) (s : VersionState) (del : VersionNode) (t : VersionState) : Type 0 where
  pub there : find_id id s.chain.nodes ≡ some del
  pub unimportant : del.is_important ≡ false
  pub valid : IsValid t.chain
  pub count : t.chain.count ≡ s.chain.count - 1
  pub gone : find_id id t.chain.nodes ≡ none
  pub reads :
      (a i : ℕ)
      → a ≢ del.addr
      → has a s.chain.nodes ≡ true
      → Covers del.addr i s.chain.nodes
      → snapshot_get_block_data t.chain.nodes a i ≡ snapshot_get_block_data s.chain.nodes a i

-- a result with the state
abbrev answer : Status → Option VersionState → Status × Option VersionState
answer r s = (r, s)

chosen :
    (b : Bool) (x y r : Option VersionState)
    → (if b then answer eperm x else answer success y) ≡ answer success r
    → (b ≡ false) × (y ≡ r)
chosen true x y r h = absurd (cc)
chosen false x y r h = (refl, ap (λ q. q.1) h)

delete-found :
    (id : ℕ) (s : VersionState) (del : VersionNode)
    → (id == 0) ≡ false
    → find_id id s.chain.nodes ≡ some del
    → version_manager_delete_version id (some s) ≡ (
        if del.is_important
        then (eperm, some s)
        else (success, some (version_remove_node_locked s del).0))
unfolding version_manager_delete_version
delete-found id s del z e = rw (z, e, version_manager_delete_version) refl

-- A deletion that succeeds removes a version with the id, one not marked as important, from a valid
-- chain: the chain stays valid and its count falls by one, no version has the id any more, and
-- every block of every other version reads as before, if the version that inherited from the
-- deleted one has room for the block.
pub version_manager_delete_version-removes :
    (id : ℕ) (s t : VersionState)
    → IsValid s.chain
    → version_manager_delete_version id (some s) ≡ (success, some t)
    → (del : VersionNode) × Deleted id s del t
unfolding version_manager_delete_version
version_manager_delete_version-removes id s t v h = elim (Bool-cases (id == 0)) [
  | inl z ↦ absurd (cc (ap (λ r. r.0) (rw (z, version_manager_delete_version) at h)))
  | inr z ↦ elim (Option-cases (find_id id s.chain.nodes)) [
    | inl e ↦ absurd (cc (ap (λ r. r.0) (rw (z, e, version_manager_delete_version) at h)))
    | inr (del, e) ↦
        (let decided = sym (delete-found id s del z e) ∙ h in
          let (f, result) =
            chosen del.is_important (some s) (some (version_remove_node_locked s del).0) (some t)
              decided in
          let same : (version_remove_node_locked s del).0 ≡ t = cc in
          let there = find_id-find_version id s.chain.nodes del v.linked e in
          let (older, removed, looks, linked) = shape s del v there in
          let gone : find_id id (after s del).nodes ≡ none =
            ap (λ k. find_id k (after s del).nodes) (sym (id-find_id id s.chain.nodes del e))
            ∙ find_id-Removed s.chain.nodes del older removed v.descending in
          (
            del,
            subst (Deleted id s del) same (record {
              there = e;
              unimportant = f;
              valid = version_remove_node_locked-IsValid s del v there;
              count = count-after s del v there;
              gone = gone;
              reads = version_remove_node_locked-reads s del v there;
            }),
          ))
  ]
]
