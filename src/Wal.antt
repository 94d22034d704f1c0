-- ===== src/Wal.antt =====
-- The write-ahead log of src/module_d/module_d.c (md_transaction_*, md_write_wal_segment_to_file,
-- md_recover_from_wal_file, md_cleanup_committed_transactions), over the structures of
-- include/module_d.h. The files of the log directory are a list from segment id to bytes. `disk` says
-- whether `open` and `write` succeed; allocation is taken to succeed. A record larger than a segment
-- overflows its buffer in C and is excluded where that matters.
pub mod Header
pub mod Laws
pub mod Recovery
use smartbackup_fs.Base.{
  take, ℕ, zero, suc, ◌+◌, ◌-◌, ◌*◌, ◌%◌, ◌^◌, Bool, true, false, ◌&&◌, not, Option, none, some,
  List, [], ◌∷◌, ◌++◌, length, ltb, ◌==◌, if◌then◌else◌,
}
use smartbackup_fs.Wal.Header.{TransactionHeader, encode}

abbrev pub wal_segment_size : ℕ
wal_segment_size = 16 * 1024 * 1024

-- `wal_segment_t`; `size` is the length of `bytes`
pub record WalSegment : Type 0 where
  pub segment_id : ℕ
  pub bytes : List ℕ
  pub capacity : ℕ
  pub created_time : ℕ
  pub active : Bool
  pub file_written : Bool

-- The log's part of `module_d_state`: the segments before the current one, the newest first, the
-- current one, and the files, the last written first.
pub record Wal : Type 0 where
  pub older : List WalSegment
  pub current : Option WalSegment
  pub next_tx_id : ℕ
  pub wal_enabled : Bool
  pub total_transactions : ℕ
  pub files : List (ℕ × List ℕ)

-- the log as `md_transaction_init` leaves it, the recovery aside
abbrev pub md_transaction_init : List (ℕ × List ℕ) → ℕ → Wal
md_transaction_init files total = record {
  older = [];
  current = none;
  next_tx_id = 1;
  wal_enabled = true;
  total_transactions = total;
  files = files;
}

-- What a write of a file comes to: it works, or the file cannot be opened, or it is cut off after some bytes,
-- fewer than all of them.
pub data Disk : Type 0 where
  works : Disk
  closed : Disk
  cut_off : ℕ → Disk

-- The segment and the files after the call. An empty segment, or a failing disk, gives -1; a write that is
-- cut off has emptied the file first.
unfoldable pub md_write_wal_segment_to_file :
    Disk → WalSegment → List (ℕ × List ℕ) → Bool × WalSegment × List (ℕ × List ℕ)
md_write_wal_segment_to_file disk s files =
    if length s.bytes == 0 then (false, s, files) else elim disk [
      | works ↦ (true, record s { file_written = true }, (s.segment_id, s.bytes) ∷ files)
      | closed ↦ (false, s, files)
      | cut_off n ↦ (false, s, (s.segment_id, take n s.bytes) ∷ files)
    ]

abbrev pub new_segment : ℕ → ℕ → WalSegment
new_segment id now = record {
  segment_id = id;
  bytes = [];
  capacity = wal_segment_size;
  created_time = now;
  active = true;
  file_written = false;
}

-- A segment with room for the record becomes current; the one before, if it was full, is written. The
-- last argument is the current segment of the log.
unfoldable pub make_current : Disk → ℕ → ℕ → Wal → Option WalSegment → WalSegment × Wal
make_current disk now size w none = (new_segment 1 now, w)
make_current disk now size w (some s) =
    if ltb s.capacity (length s.bytes + size)
    then (let (done, s', files) = md_write_wal_segment_to_file disk s w.files in
        (
          new_segment (s'.segment_id + 1) now,
          record w { older = record s' { active = false } ∷ w.older; files = files },
        ))
    else (s, w)

unfoldable pub append_record : List ℕ → WalSegment × Wal → Wal
append_record bytes (s, w) = record w { current = some (record s { bytes = s.bytes ++ bytes }) }

-- Whether the record was logged, and the log.
unfoldable pub md_transaction_log : Disk → ℕ → List ℕ → Wal → Bool × Wal
md_transaction_log disk now bytes w =
    if not w.wal_enabled
    then (false, w)
    else if length bytes == 0
    then (false, w)
    else (true, append_record bytes (make_current disk now (length bytes) w w.current))

abbrev pub tx_pending : ℕ
tx_pending = 0

abbrev pub tx_committed : ℕ
tx_committed = 1

abbrev pub tx_rolled_back : ℕ
tx_rolled_back = 2

-- the header that begin, commit and rollback log
abbrev pub header_of : ℕ → ℕ → ℕ → ℕ → TransactionHeader
header_of tx_id type state now = record {
  tx_id = tx_id;
  type = type;
  state = state;
  timestamp = now;
  ino = 0;
  block_id = 0;
  data_size = 0;
  checksum = 0;
}

-- The id of the new transaction, 0 if the log is off.
abbrev pub md_transaction_begin : Disk → ℕ → ℕ → Wal → ℕ × Wal
md_transaction_begin disk now type w =
    if not w.wal_enabled
    then (0, w)
    else (let id = w.next_tx_id in
        let counted = record w { next_tx_id = (id + 1) % 2 ^ 64 } in
        let logged =
          (md_transaction_log disk now (encode (header_of id type tx_pending now)) counted).1 in
        (id, record logged { total_transactions = logged.total_transactions + 1 }))

-- the current segment, the last argument, goes to disk unless it did so before
unfoldable pub flush_current : Disk → Wal → Option WalSegment → Wal
flush_current disk w none = w
flush_current disk w (some s) =
    if s.file_written
    then w
    else (let (done, s', files) = md_write_wal_segment_to_file disk s w.files in
        record w { current = some s'; files = files })

unfoldable pub md_transaction_commit : Disk → ℕ → ℕ → Wal → Wal
md_transaction_commit disk now tx_id w =
    if not w.wal_enabled
    then w
    else (let logged =
          (md_transaction_log disk now (encode (header_of tx_id 0 tx_committed now)) w).1 in
        flush_current disk logged logged.current)

abbrev pub md_transaction_rollback : Disk → ℕ → ℕ → Wal → Wal
md_transaction_rollback disk now tx_id w =
    if not w.wal_enabled
    then w
    else (md_transaction_log disk now (encode (header_of tx_id 0 tx_rolled_back now)) w).1

-- whether the clean-up keeps a segment: it is active, or at most an hour old
abbrev pub is_kept : ℕ → WalSegment → Bool
is_kept now s = if s.active then true else not (ltb 3600 (now - s.created_time))

unfoldable pub keep_segments : ℕ → List WalSegment → List WalSegment
keep_segments now [] = []
keep_segments now (s ∷ ss) =
    if is_kept now s then s ∷ keep_segments now ss else keep_segments now ss

-- The current segment is active.
abbrev pub md_cleanup_committed_transactions : ℕ → Wal → Wal
md_cleanup_committed_transactions now w = record w { older = keep_segments now w.older }
