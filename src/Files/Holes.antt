-- ===== src/Files/Holes.antt =====
-- Reads past the end of a file's block map.
use smartbackup_fs.Base.{
  ℕ, zero, suc, ◌+◌, ◌-◌, ◌*◌, ◌/◌, ◌≤◌, ◌<◌, ◌≡◌, refl, ap, ◌∙◌, Bool, true, false, not, Option,
  some, List, length, replicate, ltb, leb, if◌then◌else◌, inl, inr, einval, arith,
}
use native.Mathlib.Nat.{le-div_iff_mul-le, mod-lt}
use smartbackup_fs.Block.Io.{put_bytes}
use smartbackup_fs.Dedup.Index.{Libraries, Blocks}
use smartbackup_fs.Files.{OpenFile, block_part}
use smartbackup_fs.Files.Read.{FileResult, read_round, read_rounds, finish_read, smart_read_file}

module _ (lib : Libraries) (block_size now : ℕ) (opened : Bool) (slots : List (Option ℕ))
    (s : Blocks) (roomy : 0 < block_size) where
  -- a round past the map
  round-hole :
      (offset left : ℕ)
      → length slots * block_size ≤ offset
      → read_round lib block_size now opened offset left slots s
        ≡ some (inr (0, replicate (block_part block_size offset left) 0), s)
  unfolding read_round
  round-hole offset left h =
      let beyond : length slots ≤ offset / block_size = (le-div_iff_mul-le roomy).1 h in
      let past : leb (length slots) (offset / block_size) ≡ true = ground arith in rw past refl

  part-takes : (offset left : ℕ) → 0 < left → 0 < block_part block_size offset left
  part-takes offset left h = ground (arith, mod-lt offset roomy)

  rounds-hole :
      (n left offset done : ℕ) (buf : List ℕ)
      → length slots * block_size ≤ offset
      → left ≤ n
      → (buf' : List ℕ) × (read_rounds lib block_size now opened n left offset done buf slots s
          ≡ some (inr (done, buf'), s))
  unfolding read_rounds
  rounds-hole n zero offset done buf h le = (buf, refl)
  rounds-hole zero (suc left) offset done buf h le = absurd (omega arith)
  rounds-hole (suc n) (suc left) offset done buf h le =
      let taken = block_part block_size offset (suc left) in
      let some_taken = part-takes offset (suc left) (omega arith) in
      let (buf', rest) =
        rounds-hole n (suc left - taken) (offset + taken) (done + 0)
          (put_bytes buf done (replicate taken 0)) (omega arith) (omega (arith, some_taken)) in
      let same : done + 0 ≡ done = omega arith in
      (
        buf',
        rw (round-hole offset (suc left) h, read_rounds)
            (rest ∙ ap (λ d. some (inr (d, buf'), s)) same),
      )

-- However many bytes are asked for, a read inside a regular file, but past the end of its block map, as in a sparse
-- file, ends and counts 0 bytes.
pub smart_read_file-hole :
    (lib : Libraries) (block_size now : ℕ) (opened : Bool) (f : OpenFile) (buf : List ℕ)
    (size offset : ℕ) (s : Blocks)
    → f.is_regular ≡ true
    → 0 < block_size
    → length f.slots * block_size ≤ offset
    → offset < f.size
    → (buf' : List ℕ) × (smart_read_file lib block_size now opened f buf size offset s
        ≡ some (inr (0, buf'), record f { atime = now }, s))
unfolding smart_read_file
smart_read_file-hole lib block_size now opened f buf size offset s regular roomy past inside =
    let remaining = f.size - offset in
    let wanted = if ltb remaining size then remaining else size in
    let within : leb f.size offset ≡ false = ground arith in
    let finish = finish_read lib block_size now opened f in
    let (buf', ends) =
      rounds-hole lib block_size now opened f.slots s roomy wanted wanted offset 0 buf past
        (omega arith) in
    let body =
      finish (read_rounds lib block_size now opened wanted wanted offset 0 buf f.slots s) in
    let at_end : Option (FileResult × OpenFile × Blocks) = some (inr (0, buf), f, s) in
    let refused : Option (FileResult × OpenFile × Blocks) = some (inl einval, f, s) in
    (
      buf',
      ap (λ r. if not r then refused else if leb f.size offset then at_end else body) regular
          ∙ ap (λ t. if t then at_end else body) within
          ∙ ap finish ends,
    )
