-- ===== src/Files/Rounds.antt =====
-- Single rounds of smart_write_file and reads of plain blocks
-- (src/module_a/metadata_manager.c).
use smartbackup_fs.Base.{
  true, ◌++◌, length-append, length-take, length-drop, ℕ, zero, suc, ◌+◌, ◌≤◌, ◌<◌, ◌≡◌, refl, ap,
  ◌∙◌, Bool, false, some, List, [], ◌∷◌, length, take, drop, leb, ◌==◌, if◌then◌else◌, inl, inr,
  Bool-cases, arith,
}
use native.Mathlib.Nat.{zero-add}
use smartbackup_fs.Block.{DataBlock, Decompressor, is_compressed, block_decompress}
use smartbackup_fs.Block.Io.{put_bytes, read_block, source_bytes, clip}
use smartbackup_fs.Dedup.Config.{Load}
use smartbackup_fs.Dedup.Index.{copy_of, is_hashable, Libraries, Blocks, block_compute_hash}
use smartbackup_fs.Dedup.{mark_plain}
use smartbackup_fs.Files.{OpenFile, write_round, write_rounds}

-- a read inside a plain block
pub read_inside :
    (codec : Decompressor) (b : DataBlock) (bytes : List ℕ) (n offset : ℕ)
    → b.buffer ≡ some bytes
    → is_compressed b ≡ false
    → offset < b.size
    → offset + n ≤ b.size
    → read_block codec b n offset ≡ inr (take n (drop offset bytes))
unfolding read_block
read_inside codec b bytes n offset e plain inside room =
    let within : leb b.size offset ≡ false = ground arith in
    let fits : clip b.size n offset ≡ n = ground arith in
    let source : source_bytes codec b ≡ some bytes =
      ap (λ c. if c then block_decompress codec b else b.buffer) plain ∙ e in
    rw (within, source, fits) refl

module _ (lib : Libraries) (b : DataBlock) where
  pub buffer-hashed : (block_compute_hash lib b).buffer ≡ b.buffer
  unfolding block_compute_hash
  buffer-hashed = elim (Bool-cases (b.size == 0)) [ inl e ↦ rw e refl | inr e ↦ rw e refl ]

  pub hashable-hashed : is_hashable (block_compute_hash lib b) ≡ is_hashable b
  unfolding block_compute_hash
  hashable-hashed = elim (Bool-cases (b.size == 0)) [ inl e ↦ rw e refl | inr e ↦ rw e refl ]

  pub size-hashed : (block_compute_hash lib b).size ≡ b.size
  unfolding block_compute_hash
  size-hashed = elim (Bool-cases (b.size == 0)) [ inl e ↦ rw e refl | inr e ↦ rw e refl ]

pub mark_plain-plain : (b : DataBlock) → is_compressed (mark_plain b) ≡ false
unfolding is_compressed
mark_plain-plain b = refl

-- Bytes put inside leave the length.
pub length-put_bytes :
    (bytes new : List ℕ) (offset : ℕ)
    → offset + length new ≤ length bytes
    → length (put_bytes bytes offset new) ≡ length bytes
length-put_bytes bytes new offset h =
    let rest = drop (offset + length new) bytes in
    omega (
      arith,
      length-append (take offset bytes) (new ++ rest),
      length-append new rest,
      length-take offset bytes,
      length-drop (offset + length new) bytes,
    )

pub copy-hashable :
    (lib : Libraries) (b : DataBlock) (plain : List ℕ) (id : ℕ)
    → is_hashable (copy_of lib b plain id) ≡ true
copy-hashable lib b plain id = hashable-hashed lib _ ∙ ground arith

pub drop-all : (xs : List ℕ) → drop (length xs) xs ≡ []
drop-all [] = refl
drop-all (x ∷ xs) = drop-all xs

module _ (lib : Libraries) (load : Load) (block_size now : ℕ) (opened : Bool) (junk : List ℕ) where
  rounds-none :
      (n offset done : ℕ) (f : OpenFile) (s : Blocks)
      → write_rounds lib load block_size now opened junk n [] offset done f s
        ≡ some (inr done, f, s)
  unfolding write_rounds
  rounds-none zero offset done f s = refl
  rounds-none (suc n) offset done f s = refl

  -- one round that takes everything
  pub rounds-one :
      (buf : List ℕ) (offset : ℕ) (f f' : OpenFile) (s s' : Blocks)
      → 0 < length buf
      → write_round lib load block_size now opened junk buf offset f s
        ≡ some (inr (length buf), f', s')
      → write_rounds lib load block_size now opened junk (length buf) buf offset 0 f s
        ≡ some (inr (length buf), f', s')
  unfolding write_rounds
  rounds-one [] offset f f' s s' h e = absurd (omega arith)
  rounds-one (b ∷ bs) offset f f' s s' h e =
      let k = length (b ∷ bs) in
      rw (e, write_rounds)
        (ap
            (λ xs.
              write_rounds lib load block_size now opened junk (length bs) xs (offset + k) (0 + k)
                f' s')
            (drop-all (b ∷ bs))
          ∙ rounds-none (length bs) (offset + k) (0 + k) f' s'
          ∙ ap (λ d. some (inr d, f', s')) (zero-add k))
