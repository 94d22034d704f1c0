-- ===== src/Version/Create/Laws.antt =====
-- What `version_manager_create_version` as a whole does: within the limits it adds the new version
-- and removes nothing; beyond them it may free the new version and then use it; when it returns,
-- the chain is valid and the versions that stay read as they should.
use smartbackup_fs.Base.{
  ℕ, ◌+◌, ◌≤◌, ◌<◌, ◌≡◌, refl, sym, ◌∙◌, ap, Option, none, some, List, [], ◌∷◌, arith, length,
  get_or, true, false, ◌==◌, Bool-cases, Option-cases, inl, inr, ==_iff,
}
use mathlib.Core.Option
use mathlib.Core.Path.{subst}
use smartbackup_fs.Block.{BlockMap, Decompressor, plain_bytes}
use smartbackup_fs.Lru.{LruCache, lru_cache_put}
use smartbackup_fs.Version.Types.{
  VersionNode, VersionChain, FileMeta, VersionState, find_version, head_id,
}
use smartbackup_fs.Version.Remove.{version_key}
use smartbackup_fs.Version.Lookup.{snapshot_get_block_data}
use smartbackup_fs.Version.Lookup.Laws.{has}
use smartbackup_fs.Version.Remove.Kept.{IsValid}
use smartbackup_fs.Version.Retention.{
  Policy, keep, size_limit, total_stored, version_apply_retention_locked,
}
use smartbackup_fs.Version.Retention.Within.{
  IsWithin, retention_within, AllImportant, retention_removes_head,
}
use smartbackup_fs.Version.Retention.Laws.{
  Keeps, IsRoomy, has_important, version_apply_retention_locked-Keeps,
}
use smartbackup_fs.Version.Create.{
  Call, new_version, push_version, finish, version_manager_create_version, record_version,
  cache_version,
}
use smartbackup_fs.Version.Create.Push.{
  AllFilled, IsRecorded, push_version-IsValid, push_version-older,
}

find-has :
    (a : ℕ) (ns : List VersionNode) (n : VersionNode) → find_version a ns ≡ some n → has a ns ≡ true
unfolding find_version has
find-has a [] n h = absurd (cc)
find-has a (m ∷ ns) n h = ground (arith, find-has a ns n)

important_has : (a : ℕ) (ns : List VersionNode) → has_important a ns ≡ true → has a ns ≡ false → ⊥
unfolding has_important has
important_has a [] h k = cc
important_has a (n ∷ ns) h k = ground (arith, important_has a ns)

find-lacks : (a : ℕ) (ns : List VersionNode) → has a ns ≡ false → find_version a ns ≡ none
unfolding find_version has
find-lacks a [] h = refl
find-lacks a (m ∷ ns) h = ground (arith, find-lacks a ns)

finish-lacks : (c : Call) (s : VersionState) → has c.addr s.chain.nodes ≡ false → finish c s ≡ none
unfolding finish
finish-lacks c s h = rw (find-lacks c.addr s.chain.nodes h, finish)

finish-some :
    (c : Call) (s t : VersionState)
    → finish c s ≡ some t
    → (t.chain ≡ s.chain) × (has c.addr s.chain.nodes ≡ true)
unfolding finish
finish-some c s t h = elim (Option-cases (find_version c.addr s.chain.nodes)) [
  | inl e ↦ absurd (ground arith)
  | inr (n, e) ↦ (ground arith, find-has c.addr s.chain.nodes n e)
]

module _ (p : Policy) (codec : Decompressor) (c : Call) (map : BlockMap) (chain : VersionChain)
    (m : FileMeta) (cache : Option (LruCache FileMeta)) where
  abbrev pub created : VersionNode
  created = new_version codec c map chain m

  abbrev pub pushed : VersionChain
  pushed = push_version created chain

  abbrev start : VersionState
  start = record { chain = pushed; meta = some m; cache = cache }

  finish-head :
      finish c (record { chain = pushed; meta = some m; cache = cache })
      ≡ some (record {
        chain = pushed;
        meta = some (record_version created m);
        cache = Option.map (cache_version c created (record_version created m)) cache;
      })
  unfolding finish push_version find_version new_version
  finish-head = rw ((==_iff c.addr c.addr).1 refl, finish)

  pub create_returns :
      IsWithin p pushed.count (total_stored pushed.nodes)
      → version_manager_create_version p codec c map chain m cache
        ≡ some (
          record {
            chain = pushed;
            meta = some (record_version created m);
            cache = Option.map (cache_version c created (record_version created m)) cache;
          },
          record map { version_id = created.version_id },
        )
  unfolding version_manager_create_version
  create_returns h = rw (retention_within p c.now start h, finish-head)

  -- the metadata after the call
  abbrev pub counted_meta : FileMeta
  counted_meta = record m {
    version_count = m.version_count + 1;
    latest_version_id = head_id chain.nodes + 1;
    last_version_time = c.created;
  }

  -- What a call comes to that removes no version: `t` is the state after it, and `map'` the block map.
  pub record IsAdded (t : VersionState) (map' : BlockMap) : Type 0 where
    pub returns : version_manager_create_version p codec c map chain m cache ≡ some (t, map')
    pub valid : IsValid t.chain
    pub count : t.chain.count ≡ chain.count + 1
    pub older_reads :
        (a j : ℕ)
        → has a chain.nodes ≡ true
        → snapshot_get_block_data t.chain.nodes a j ≡ snapshot_get_block_data chain.nodes a j
    pub newest_reads :
        (j : ℕ) (bytes : List ℕ)
        → j < length map.blocks
        → plain_bytes codec (get_or map.blocks j none) ≡ some bytes
        → IsRecorded chain j bytes
        → snapshot_get_block_data t.chain.nodes c.addr j ≡ some (bytes, length bytes)
    pub meta : t.meta ≡ some counted_meta
    pub cached :
        t.cache
        ≡ Option.map
            (λ k.
              (lru_cache_put k
                (version_key m.ino (head_id chain.nodes + 1))
                (some (record counted_meta { versioned = true; version_handle = some c.addr }))
                c.stamp
                true).1)
            cache
    pub map_id : map' ≡ record map { version_id = head_id chain.nodes + 1 }

  module _ (v : IsValid chain) (fresh : has c.addr chain.nodes ≡ false)
      (filled : AllFilled codec map.blocks) where
    -- A file that is not pinned, with a valid chain of important versions only, which the new
    -- version takes over the size limit: retention frees the new version and the call uses it.
    pub version_manager_create_version_frees :
        AllImportant chain.nodes
        → 0 < chain.count
        → m.version_pinned ≡ false
        → 0 < size_limit p
        → size_limit p < total_stored pushed.nodes
        → version_manager_create_version p codec c map chain m cache ≡ none
    unfolding version_manager_create_version new_version push_version
    version_manager_create_version_frees h some? unpinned on over =
        let s : VersionState = record { chain = pushed; meta = some m; cache = cache } in
        let gone =
          retention_removes_head p c.now s created chain.nodes refl
            (push_version-IsValid codec c map chain m v fresh filled) h (omega arith) refl unpinned
            on over in
        rw (finish-lacks c (version_apply_retention_locked p s c.now) gone)

    module _ (some_kept : 1 ≤ keep p) (t : VersionState) (map' : BlockMap)
        (returned : version_manager_create_version p codec c map chain m cache
          ≡ some (t, map')) where
      important_pushed :
          (a : ℕ) → has_important a chain.nodes ≡ true → has_important a pushed.nodes ≡ true
      unfolding has_important push_version new_version
      important_pushed a h = elim (Bool-cases (c.addr == a)) [
        | inl e ↦ absurd (
            important_has a chain.nodes h
              (ap (λ b. has b chain.nodes) (sym ((==_iff c.addr a).0 e)) ∙ fresh))
        | inr e ↦ rw e h
      ]

      result : Keeps pushed t.chain × (has c.addr t.chain.nodes ≡ true)
      unfolding version_manager_create_version
      result = elim (Option-cases (finish c (version_apply_retention_locked p start c.now))) [
        | inl e ↦ absurd (ground arith)
        | inr (u, e) ↦
            let (same, there) = finish-some c _ u e in
            let is_u : t ≡ u = ground arith in
            let chains : t.chain ≡ (version_apply_retention_locked p start c.now).chain =
              ap (λ x. x.chain) is_u ∙ same in
            let k =
              version_apply_retention_locked-Keeps p c.now some_kept start
                (push_version-IsValid codec c map chain m v fresh filled) in
            (subst (Keeps pushed) (sym chains) k, ap (λ x. has c.addr x.nodes) chains ∙ there)
      ]

      -- After a call that returns, the chain is valid, the new version and every important one are
      -- on it, and every older version that is still on it reads as before, at each block for which
      -- all versions have room.
      pub version_manager_create_version-older :
          IsValid t.chain
          × (has c.addr t.chain.nodes ≡ true)
          × ((a : ℕ) → has_important a chain.nodes ≡ true → has_important a t.chain.nodes ≡ true)
          × ((a j : ℕ)
              → has a chain.nodes ≡ true
              → has a t.chain.nodes ≡ true
              → IsRoomy j pushed.nodes
              → snapshot_get_block_data t.chain.nodes a j ≡ snapshot_get_block_data chain.nodes a j)
      version_manager_create_version-older = (
        result.0.valid,
        result.1,
        λ a h. result.0.important a (important_pushed a h),
        λ a j h k room.
            result.0.reads a j k room ∙ push_version-older codec c map chain m v fresh filled a j h,
      )
