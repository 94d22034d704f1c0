-- ===== src/Version/Read/Image.antt =====
-- The bytes of a file at a version as a function of the position, and the bytes that one round of the
-- read loop of version_manager_read_version_data takes from a block.
use smartbackup_fs.Base.{
  ℕ, zero, suc, ◌+◌, ◌-◌, ◌*◌, ◌/◌, ◌%◌, ◌<◌, ◌≤◌, Option, none, some, List, [], ◌∷◌, ◌++◌, take,
  drop, replicate, length, get_or, ltb, leb, if◌then◌else◌, ◌≡◌, refl, sym, ap, ◌∙◌, ◌⊎◌, inl, inr,
  Bool-cases, tests, arith,
}
use mathlib.Core.Path.{subst}
use native.Mathlib.Nat.{div-add-mod', div-add-mod, mul-add-div_right, div-eq_of_lt, add-zero}
use smartbackup_fs.Version.Lookup.{BlockData}
use smartbackup_fs.Version.Read.{chunk}

-- one byte of a block, and zero where the block has none
unfoldable pub byte_in : Option BlockData → ℕ → ℕ
byte_in none off = 0
byte_in (some (blk, avail)) off = if ltb off avail then get_or blk off 0 else 0

-- the byte at a position of the file
unfoldable pub byte_at : ℕ → (ℕ → Option BlockData) → ℕ → ℕ
byte_at block_size look p = byte_in (look (p / block_size)) (p % block_size)

-- the `n` bytes from the position `p` on
unfoldable pub image : (ℕ → ℕ) → ℕ → ℕ → List ℕ
image byte p zero = []
image byte p (suc n) = byte p ∷ image byte (p + 1) n

-- The recorded size of a block is that of its buffer.
unfoldable pub IsSized : (ℕ → Option BlockData) → Type 0
IsSized look = (i : ℕ) (blk : List ℕ) (avail : ℕ) → look i ≡ some (blk, avail) → length blk ≡ avail

length-image : (byte : ℕ → ℕ) (p n : ℕ) → length (image byte p n) ≡ n
unfolding image
length-image byte p zero = refl
length-image byte p (suc n) = ap suc (length-image byte (p + 1) n)

pub image_none : (byte : ℕ → ℕ) (p : ℕ) → image byte p 0 ≡ []
unfolding image
image_none byte p = refl

pub image-append :
    (byte : ℕ → ℕ) (p n m : ℕ) → image byte p n ++ image byte (p + n) m ≡ image byte p (n + m)
unfolding image
image-append byte p zero m =
    let e : p + 0 ≡ p = omega arith in let e' : 0 + m ≡ m = omega arith in cc
image-append byte p (suc n) m =
    let ih = image-append byte (p + 1) n m in
    let e : p + 1 + n ≡ p + suc n = omega arith in
    let e' : suc n + m ≡ suc (n + m) = omega arith in
    rw e' (ap (λ r. byte p ∷ r) (ap (λ q. image byte (p + 1) n ++ image byte q m) (sym e) ∙ ih))

moved : (f g : ℕ → ℕ) {p q p' q' : ℕ} → p ≡ p' → q ≡ q' → f p ≡ g q → f p' ≡ g q'
moved f g e e' h = sym (ap f e) ∙ h ∙ ap g e'

-- two byte functions that agree on a stretch
image-agree :
    (f g : ℕ → ℕ) (p q n : ℕ)
    → ((k : ℕ) → k < n → f (p + k) ≡ g (q + k))
    → image f p n ≡ image g q n
unfolding image
image-agree f g p q zero h = refl
image-agree f g p q (suc n) h =
    let now : f p ≡ g q =
      moved f g {p = p + 0} {q = q + 0} (omega arith) (omega arith) (h 0 (omega arith)) in
    let rest : image f (p + 1) n ≡ image g (q + 1) n = image-agree f g (p + 1) (q + 1) n (λ k l.
      moved f g {p = p + (k + 1)} {q = q + (k + 1)} (omega arith) (omega arith)
        (h (k + 1) (omega arith))) in
    cc

image_zero : (f : ℕ → ℕ) (p n : ℕ) → ((k : ℕ) → f (p + k) ≡ 0) → image f p n ≡ replicate n 0
unfolding image
image_zero f p zero h = refl
image_zero f p (suc n) h =
    let now : f p ≡ 0 = ap f {x = p} {y = p + 0} (omega arith) ∙ h 0 in
    let rest : image f (p + 1) n ≡ replicate n 0 =
      image_zero f (p + 1) n
        (λ k. ap f {x = p + 1 + k} {y = p + (k + 1)} (omega arith) ∙ h (k + 1)) in
    cc

drop_step :
    (xs : List ℕ) (off : ℕ) → off < length xs → drop off xs ≡ get_or xs off 0 ∷ drop (suc off) xs
drop_step [] off h = absurd (omega arith)
drop_step (x ∷ xs) zero h = refl
drop_step (x ∷ xs) (suc off) h = drop_step xs off (omega arith)

take-drop-image :
    (xs : List ℕ) (off n : ℕ)
    → off + n ≤ length xs
    → take n (drop off xs) ≡ image (λ i. get_or xs i 0) off n
unfolding image
take-drop-image xs off zero h = refl
take-drop-image xs off (suc n) h =
    let e : suc off ≡ off + 1 = omega arith in
    ap (take (suc n)) (drop_step xs off (omega arith))
    ∙ ap (λ r. get_or xs off 0 ∷ take n (drop r xs)) e
    ∙ ap (λ r. get_or xs off 0 ∷ r) (take-drop-image xs (off + 1) n (omega arith))

-- within the block's data
inside :
    (blk : List ℕ) (off n : ℕ)
    → off + n ≤ length blk
    → take n (drop off blk) ≡ image (byte_in (some (blk, length blk))) off n
unfolding byte_in
inside blk off n h =
    take-drop-image blk off n h
    ∙ image-agree (λ i. get_or blk i 0) (byte_in (some (blk, length blk))) off off n
        (λ k l. ground arith)

-- past the block's data
outside :
    (blk : List ℕ) (off n : ℕ)
    → length blk ≤ off
    → image (byte_in (some (blk, length blk))) off n ≡ replicate n 0
unfolding byte_in
outside blk off n h = image_zero (byte_in (some (blk, length blk))) off n (λ k. ground arith)

-- `c` bytes of the block, and zeros up to `n`
partly :
    (blk : List ℕ) (off n c : ℕ)
    → off + c ≤ length blk
    → c ≤ n
    → (c ≡ n) ⊎ (length blk ≤ off + c)
    → take c (drop off blk) ++ replicate (n - c) 0 ≡ image (byte_in (some (blk, length blk))) off n
unfolding image
partly blk off n c h l e =
    let byte = byte_in (some (blk, length blk)) in
    let tail : image byte (off + c) (n - c) ≡ replicate (n - c) 0 = elim e [
      | inl same ↦ (let none_left : n - c ≡ 0 = omega arith in rw none_left refl)
      | inr past ↦ outside blk (off + c) (n - c) past
    ] in
    let front : take c (drop off blk) ≡ image byte off c = inside blk off c h in
    let whole : image byte off c ++ image byte (off + c) (n - c) ≡ image byte off (c + (n - c)) =
      image-append byte off c (n - c) in
    let size : c + (n - c) ≡ n = omega arith in cc

chunk_within :
    (blk : List ℕ) (off n : ℕ)
    → chunk (some (blk, length blk)) off n ≡ image (byte_in (some (blk, length blk))) off n
unfolding chunk
chunk_within blk off n = elim (Bool-cases (leb (length blk) off)) [
  | inl e ↦ rw e (sym (outside blk off n (omega tests)))
  | inr e ↦ elim (Bool-cases (ltb (length blk) (off + n))) [
    | inl f ↦
        rw (e, f)
          (partly blk off n (length blk - off) (ground arith) (ground arith) (inr (ground arith)))
    | inr f ↦ rw (e, f) (partly blk off n n (ground arith) (ground arith) (inl refl))
  ]
]

chunk-image :
    (d : Option BlockData) (off n : ℕ)
    → ((blk : List ℕ) (avail : ℕ) → d ≡ some (blk, avail) → length blk ≡ avail)
    → chunk d off n ≡ image (byte_in d) off n
unfolding chunk byte_in
chunk-image none off n h = sym (image_zero (byte_in none) off n (λ k. refl))
chunk-image (some (blk, avail)) off n h =
    subst (λ a. chunk (some (blk, a)) off n ≡ image (byte_in (some (blk, a))) off n)
      (h blk avail refl) (chunk_within blk off n)

-- a later position of the same block
same_block :
    (block_size p k : ℕ)
    → 0 < block_size
    → p % block_size + k < block_size
    → ((p + k) / block_size ≡ p / block_size) × ((p + k) % block_size ≡ p % block_size + k)
same_block block_size p k pos h =
    let off = p % block_size + k in
    let split : p + k ≡ p / block_size * block_size + off =
      omega (arith, div-add-mod' p block_size) in
    let quotient : (p + k) / block_size ≡ p / block_size =
      ap (λ x. x / block_size) split
      ∙ mul-add-div_right pos (p / block_size) off
      ∙ ap (λ x. p / block_size + x) (div-eq_of_lt h)
      ∙ add-zero (p / block_size) in
    let product = ap (λ x. block_size * x) quotient in
    (quotient, omega (arith, div-add-mod p block_size, div-add-mod (p + k) block_size, product))

pub one_block :
    (block_size : ℕ) (look : ℕ → Option BlockData) (p n : ℕ)
    → 0 < block_size
    → IsSized look
    → n ≤ block_size - p % block_size
    → chunk (look (p / block_size)) (p % block_size) n ≡ image (byte_at block_size look) p n
unfolding byte_at IsSized
one_block block_size look p n pos sized h =
    chunk-image (look (p / block_size)) (p % block_size) n (sized (p / block_size))
    ∙ image-agree (byte_in (look (p / block_size))) (byte_at block_size look) (p % block_size) p n
        (λ k l.
          let e = same_block block_size p k pos (omega arith) in
          sym (
            ap (λ q. byte_in (look q) ((p + k) % block_size)) e.0
            ∙ ap (byte_in (look (p / block_size))) e.1))
