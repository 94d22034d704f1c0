-- ===== src/Tests/Logs.antt =====
-- Inputs for the write-ahead log (src/module_d/module_d.c).
use smartbackup_fs.Base.{
  ◌≡◌, ◌<◌, ◌^◌, refl, List, [], ◌∷◌, ◌++◌, none, some, true, length, if◌then◌else◌, map, arith,
}
use smartbackup_fs.Wal
use smartbackup_fs.Wal.{
  works, WalSegment, header_of, md_transaction_log, md_transaction_commit, new_segment,
  tx_committed, wal_segment_size,
}
use smartbackup_fs.Wal.Header.{TransactionHeader, Fits, encode, to_bytes}
use smartbackup_fs.Wal.Laws.{
  Fitting, log_bytes, md_transaction_log-appends, md_transaction_commit-files,
}
use smartbackup_fs.Wal.Recovery.{
  Entry, action, logged, md_recover_from_wal_file, md_recover_from_wal_file-logged,
  md_recover_from_wal_file-cut,
}

-- the header of a write of two bytes
abbrev write_header : TransactionHeader
write_header = record {
  tx_id = 7;
  type = 2;
  state = 1;
  timestamp = 1000;
  ino = 5;
  block_id = 0;
  data_size = 2;
  checksum = 0;
}

write-Fits : Fits write_header
write-Fits = record {
  tx_id = omega arith;
  type = omega arith;
  state = omega arith;
  timestamp = omega arith;
  ino = omega arith;
  block_id = omega arith;
  data_size = omega arith;
  checksum = omega arith;
}

abbrev entries : List Entry
entries = record { header = write_header; payload = 1 ∷ 2 ∷ [] } ∷ []

entries-small : length (logged entries) < 2 ^ 64
unfolding logged encode to_bytes
entries-small = omega arith

cut-small : length (logged entries ++ (encode write_header ++ (1 ∷ []))) < 2 ^ 64
unfolding logged encode to_bytes
cut-small = omega arith

md_recover_from_wal_file-logged_example :
    md_recover_from_wal_file (logged entries) ≡ some (map (λ e. action e.header) entries)
md_recover_from_wal_file-logged_example =
    md_recover_from_wal_file-logged entries (write-Fits, refl, tt) entries-small

md_recover_from_wal_file-cut_example :
    md_recover_from_wal_file (logged entries ++ (encode write_header ++ (1 ∷ []))) ≡ none
md_recover_from_wal_file-cut_example =
    md_recover_from_wal_file-cut entries write_header (1 ∷ []) (write-Fits, refl, tt) write-Fits
      (omega arith) (omega arith) cut-small

-- the first segment, with three bytes, as a commit left it
abbrev segment : WalSegment
segment = record (new_segment 1 1000) { bytes = 1 ∷ 2 ∷ 3 ∷ []; file_written = true }

abbrev wal : Wal.Wal
wal = record {
  older = [];
  current = some segment;
  next_tx_id = 8;
  wal_enabled = true;
  total_transactions = 7;
  files = (1, 1 ∷ 2 ∷ 3 ∷ []) ∷ [];
}

wal-Fitting : Fitting wal.current
unfolding Fitting
wal-Fitting = (refl, omega arith)

md_transaction_log-appends_example :
    let (ok, w') = md_transaction_log works 1001 (4 ∷ 5 ∷ []) wal in
    (ok ≡ true) × (log_bytes w' ≡ log_bytes wal ++ (4 ∷ 5 ∷ [])) × Fitting w'.current
md_transaction_log-appends_example =
    md_transaction_log-appends works 1001 (4 ∷ 5 ∷ []) wal refl (omega arith) (omega arith)
      wal-Fitting

md_transaction_commit-files_example : (md_transaction_commit works 1001 7 wal).files ≡ (
    if segment.file_written
    then wal.files
    else (segment.segment_id, segment.bytes ++ encode (header_of 7 0 tx_committed 1001))
      ∷ wal.files)
md_transaction_commit-files_example =
    md_transaction_commit-files 1001 7 wal segment refl refl (omega arith)
