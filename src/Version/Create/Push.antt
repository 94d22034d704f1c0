-- ===== src/Version/Create/Push.antt =====
-- The new version at the head of the chain, before retention: the chain stays valid, the new version
-- reads as the file, and the older ones as before.
use smartbackup_fs.Base.{
  ℕ, zero, suc, ◌+◌, ◌<◌, ◌≡◌, ◌≢◌, refl, sym, ◌∙◌, ap, Option, none, some, List, [], ◌∷◌, arith,
  length, get_or, true, false, ◌==◌, Bool-cases, inl, inr, ◌⊎◌, ==_iff, not, ◌||◌, lt→ltb,
}
use native.Mathlib.Nat.{add-zero, zero-add}
use smartbackup_fs.Block.{DataBlock, BlockMap, Decompressor, plain_bytes}
use smartbackup_fs.Version.Types.{VersionNode, VersionChain, FileMeta}
use smartbackup_fs.Version.Lookup.{BlockData, held, held_at, own_data, snapshot_get_block_data}
use smartbackup_fs.Version.Lookup.Laws.{
  has, IsSound, AllSound, resolve, since, block_of, or_block, snapshot_get_block_data-resolve,
}
use smartbackup_fs.Version.Remove.Kept.{IsValid}
use smartbackup_fs.Version.Create.{
  rolling_checksum, previous_checksum, take_block, take_blocks, head, Call, new_version,
  push_version, is_none,
}

-- no block with a buffer is empty
abbrev pub AllFilled : Decompressor → List (Option DataBlock) → Type 0
AllFilled codec [] = Unit
AllFilled codec (b ∷ bs) =
    ((bytes : List ℕ) → plain_bytes codec b ≡ some bytes → 0 < length bytes) × AllFilled codec bs

take_block-IsSound :
    (parent : Option VersionNode) (i : ℕ) (plain : Option (List ℕ))
    → ((bytes : List ℕ) → plain ≡ some bytes → 0 < length bytes)
    → IsSound (take_block parent i plain).snapshot
unfolding take_block
take_block-IsSound parent i none h = λ e. absurd (cc)
take_block-IsSound parent i (some bytes) h =
    elim (Bool-cases
      (not (rolling_checksum bytes == previous_checksum parent i) || is_none parent)) [
        | inl e ↦ let t = h bytes refl in rw e (λ _. (bytes, refl, refl, t))
        | inr e ↦ rw e (λ t. absurd (cc))
      ]

module _ (codec : Decompressor) (parent : Option VersionNode) where
  take_blocks-AllSound :
      (i : ℕ) (bs : List (Option DataBlock))
      → AllFilled codec bs
      → AllSound (take_blocks codec parent i bs).snapshots
        × (length (take_blocks codec parent i bs).snapshots ≡ length bs)
  unfolding take_blocks
  take_blocks-AllSound i [] h = (tt, refl)
  take_blocks-AllSound i (b ∷ bs) h =
      let (all, len) = take_blocks-AllSound (i + 1) bs h.1 in
      ((take_block-IsSound parent i _ h.0, all), ap suc len)

  held_at-take_blocks :
      (i j : ℕ) (bs : List (Option DataBlock))
      → j < length bs
      → held_at (take_blocks codec parent i bs).snapshots j
        ≡ held (take_block parent (i + j) (plain_bytes codec (get_or bs j none))).snapshot
  unfolding take_blocks held_at
  held_at-take_blocks i j [] h = absurd (omega arith)
  held_at-take_blocks i zero (b ∷ bs) h = rw add-zero
  held_at-take_blocks i (suc j) (b ∷ bs) h =
      let e : i + suc j ≡ i + 1 + j = omega arith in
      rw e (held_at-take_blocks (i + 1) j bs (omega arith))

-- A block is stored if there is no parent or its checksum differs from the parent's record.
take_block-held :
    (parent : Option VersionNode) (i : ℕ) (bytes : List ℕ) (below : Option BlockData)
    → (parent ≡ none ⊎ rolling_checksum bytes ≢ previous_checksum parent i)
      ⊎ (below ≡ some (bytes, length bytes))
    → or_block (held (take_block parent i (some bytes)).snapshot) below ≡ some (bytes, length bytes)
unfolding take_block held
take_block-held parent i bytes below h = ground arith

-- The checksum tells the block from the parent's record, or the parent reads as the same bytes.
abbrev pub IsRecorded : VersionChain → ℕ → List ℕ → Type 0
IsRecorded chain j bytes =
    (head chain.nodes ≡ none ⊎ rolling_checksum bytes ≢ previous_checksum (head chain.nodes) j)
    ⊎ (resolve chain.nodes j ≡ some (bytes, length bytes))

module _ (codec : Decompressor) (c : Call) (map : BlockMap) (chain : VersionChain) (m : FileMeta)
    (v : IsValid chain) (fresh : has c.addr chain.nodes ≡ false)
    (filled : AllFilled codec map.blocks) where
  abbrev pub vn : VersionNode
  vn = new_version codec c map chain m

  pub push_version-IsValid : IsValid (push_version vn chain)
  unfolding new_version push_version
  push_version-IsValid =
      let (all, len) = take_blocks-AllSound codec (head chain.nodes) 0 map.blocks filled in
      record {
        linked = (refl, fresh, sym len, all, v.linked);
        descending = (omega arith, v.descending);
        counted = omega (arith, v.counted);
      }

  since_older :
      (a i : ℕ)
      → has a chain.nodes ≡ true
      → (has a (push_version vn chain).nodes ≡ true)
        × (block_of (push_version vn chain).nodes a i ≡ block_of chain.nodes a i)
  unfolding push_version new_version has since
  since_older a i h = elim (Bool-cases (c.addr == a)) [
    | inl e ↦ absurd (let same : c.addr ≡ a = (==_iff c.addr a).0 e in cc)
    | inr e ↦ (rw e h, rw e)
  ]

  since_newest :
      (j : ℕ)
      → (has c.addr (push_version vn chain).nodes ≡ true)
        × (block_of (push_version vn chain).nodes c.addr j
            ≡ or_block (own_data vn j) (resolve chain.nodes j))
  unfolding push_version new_version has since resolve
  since_newest j = let e = (==_iff c.addr c.addr).1 refl in (rw e, rw e)

  own_data-vn :
      (j : ℕ)
      → j < length map.blocks
      → own_data vn j
        ≡ held
            (take_block
              (head chain.nodes)
              j
              (plain_bytes codec (get_or map.blocks j none))).snapshot
  unfolding own_data new_version
  own_data-vn j lt =
      rw (lt→ltb j (length map.blocks) lt)
        (held_at-take_blocks codec (head chain.nodes) 0 j map.blocks lt ∙ rw (zero-add j))

  pub push_version-older :
      (a i : ℕ)
      → has a chain.nodes ≡ true
      → snapshot_get_block_data (push_version vn chain).nodes a i
        ≡ snapshot_get_block_data chain.nodes a i
  push_version-older a i h =
      let l = push_version-IsValid.linked in
      let (there, same) = since_older a i h in
      snapshot_get_block_data-resolve (push_version vn chain).nodes a i l there
      ∙ same
      ∙ sym (snapshot_get_block_data-resolve chain.nodes a i v.linked h)

  pub push_version-newest :
      (j : ℕ) (bytes : List ℕ)
      → j < length map.blocks
      → plain_bytes codec (get_or map.blocks j none) ≡ some bytes
      → IsRecorded chain j bytes
      → snapshot_get_block_data (push_version vn chain).nodes c.addr j ≡ some (bytes, length bytes)
  push_version-newest j bytes lt e h =
      let (there, at) = since_newest j in
      snapshot_get_block_data-resolve (push_version vn chain).nodes c.addr j
        push_version-IsValid.linked there
      ∙ at
      ∙ rw (own_data-vn j lt, e)
          (take_block-held (head chain.nodes) j bytes (resolve chain.nodes j) h)
