-- ===== src/Wal/Header.antt =====
-- The record header of the log, `transaction_header_t` of include/module_d.h: packed, with its
-- numbers in little-endian order, of 52 bytes.
use smartbackup_fs.Base.{
  ℕ, zero, suc, ◌+◌, ◌*◌, ◌/◌, ◌%◌, ◌<◌, ◌≡◌, refl, ap, List, [], ◌∷◌, ◌++◌, length, arith,
}

pub record TransactionHeader : Type 0 where
  pub tx_id : ℕ
  pub type : ℕ
  pub state : ℕ
  pub timestamp : ℕ
  pub ino : ℕ
  pub block_id : ℕ
  pub data_size : ℕ
  pub checksum : ℕ

-- the `w` bytes of a number, as they stand in memory
unfoldable pub to_bytes : ℕ → ℕ → List ℕ
to_bytes zero n = []
to_bytes (suc w) n = n % 256 ∷ to_bytes w (n / 256)

-- a number read from memory, and what follows it
unfoldable pub from_bytes : ℕ → List ℕ → ℕ × List ℕ
from_bytes zero bs = (0, bs)
from_bytes (suc w) [] = (0, [])
from_bytes (suc w) (b ∷ bs) = let (n, rest) = from_bytes w bs in (b + 256 * n, rest)

unfoldable pub encode : TransactionHeader → List ℕ
encode h =
    to_bytes 8 h.tx_id
    ++ to_bytes 4 h.type
    ++ to_bytes 4 h.state
    ++ to_bytes 8 h.timestamp
    ++ to_bytes 8 h.ino
    ++ to_bytes 8 h.block_id
    ++ to_bytes 8 h.data_size
    ++ to_bytes 4 h.checksum

unfoldable pub decode : List ℕ → TransactionHeader × List ℕ
decode bs =
    let (tx_id, bs1) = from_bytes 8 bs in
    let (type, bs2) = from_bytes 4 bs1 in
    let (state, bs3) = from_bytes 4 bs2 in
    let (timestamp, bs4) = from_bytes 8 bs3 in
    let (ino, bs5) = from_bytes 8 bs4 in
    let (block_id, bs6) = from_bytes 8 bs5 in
    let (data_size, bs7) = from_bytes 8 bs6 in
    let (checksum, rest) = from_bytes 4 bs7 in
    (
      record {
        tx_id = tx_id;
        type = type;
        state = state;
        timestamp = timestamp;
        ino = ino;
        block_id = block_id;
        data_size = data_size;
        checksum = checksum;
      },
      rest,
    )

-- the numbers of so many bytes
abbrev pub room : ℕ → ℕ
room zero = 1
room (suc w) = 256 * room w

pub from_bytes-to_bytes :
    (w n : ℕ) (rest : List ℕ) → n < room w → from_bytes w (to_bytes w n ++ rest) ≡ (n, rest)
unfolding from_bytes to_bytes
from_bytes-to_bytes zero n rest h = (let z : 0 ≡ n = omega arith in ap (λ k. (k, rest)) z)
from_bytes-to_bytes (suc w) n rest h =
    let ih = from_bytes-to_bytes w (n / 256) rest (omega arith) in
    let whole : n % 256 + 256 * (n / 256) ≡ n = omega arith in rw ih (ap (λ k. (k, rest)) whole)

-- Every field fits its width.
pub record Fits (h : TransactionHeader) : Type 0 where
  pub tx_id : h.tx_id < room 8
  pub type : h.type < room 4
  pub state : h.state < room 4
  pub timestamp : h.timestamp < room 8
  pub ino : h.ino < room 8
  pub block_id : h.block_id < room 8
  pub data_size : h.data_size < room 8
  pub checksum : h.checksum < room 4

pub length-to_bytes : (w n : ℕ) → length (to_bytes w n) ≡ w
unfolding to_bytes
length-to_bytes zero n = refl
length-to_bytes (suc w) n = ap suc (length-to_bytes w (n / 256))

pub length-encode : (h : TransactionHeader) → length (encode h) ≡ 52
unfolding encode to_bytes
length-encode h = refl

-- the reads of the fields, one after the other
decode_fields :
    (h : TransactionHeader) (r1 r2 r3 r4 r5 r6 r7 r8 rest : List ℕ)
    → from_bytes 8 r1 ≡ (h.tx_id, r2)
    → from_bytes 4 r2 ≡ (h.type, r3)
    → from_bytes 4 r3 ≡ (h.state, r4)
    → from_bytes 8 r4 ≡ (h.timestamp, r5)
    → from_bytes 8 r5 ≡ (h.ino, r6)
    → from_bytes 8 r6 ≡ (h.block_id, r7)
    → from_bytes 8 r7 ≡ (h.data_size, r8)
    → from_bytes 4 r8 ≡ (h.checksum, rest)
    → decode r1 ≡ (h, rest)
unfolding decode
decode_fields h r1 r2 r3 r4 r5 r6 r7 r8 rest e1 e2 e3 e4 e5 e6 e7 e8 =
    rw (e1, e2, e3, e4, e5, e6, e7, e8) refl

-- A header that is read from memory is the one that was written there, if every field fits, and what
-- follows it is left.
pub decode-encode :
    (h : TransactionHeader) (rest : List ℕ) → Fits h → decode (encode h ++ rest) ≡ (h, rest)
unfolding encode to_bytes
decode-encode h rest f =
    let r8 = to_bytes 4 h.checksum ++ rest in
    let r7 = to_bytes 8 h.data_size ++ r8 in
    let r6 = to_bytes 8 h.block_id ++ r7 in
    let r5 = to_bytes 8 h.ino ++ r6 in
    let r4 = to_bytes 8 h.timestamp ++ r5 in
    let r3 = to_bytes 4 h.state ++ r4 in
    let r2 = to_bytes 4 h.type ++ r3 in
    decode_fields h (encode h ++ rest) r2 r3 r4 r5 r6 r7 r8 rest
      (from_bytes-to_bytes 8 h.tx_id r2 f.tx_id) (from_bytes-to_bytes 4 h.type r3 f.type)
      (from_bytes-to_bytes 4 h.state r4 f.state) (from_bytes-to_bytes 8 h.timestamp r5 f.timestamp)
      (from_bytes-to_bytes 8 h.ino r6 f.ino) (from_bytes-to_bytes 8 h.block_id r7 f.block_id)
      (from_bytes-to_bytes 8 h.data_size r8 f.data_size)
      (from_bytes-to_bytes 4 h.checksum rest f.checksum)
