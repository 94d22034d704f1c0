-- ===== src/Wal/Laws.antt =====
-- What logging keeps, and what a commit writes to disk.
use smartbackup_fs.Base.{
  ℕ, ◌+◌, ◌≤◌, ◌<◌, ◌≡◌, refl, sym, ap, ◌∙◌, Bool, true, false, not, Option, none, some, List, [],
  ◌∷◌, ◌++◌, append_assoc, append-nil, length, length-append, ltb, ◌==◌, if◌then◌else◌, inl, inr,
  Bool-cases, arith,
}
use smartbackup_fs.Wal.Header.{encode, length-encode}
use smartbackup_fs.Wal.{
  Wal, Disk, works, closed, cut_off, WalSegment, append_record, wal_segment_size, make_current,
  md_write_wal_segment_to_file, md_transaction_log, md_transaction_commit, flush_current, header_of,
  tx_committed,
}

unfoldable pub older_bytes : List WalSegment → List ℕ
older_bytes [] = []
older_bytes (s ∷ ss) = older_bytes ss ++ s.bytes

unfoldable pub current_bytes : Option WalSegment → List ℕ
current_bytes none = []
current_bytes (some s) = s.bytes

-- everything that stands in the log, the oldest first
unfoldable pub log_bytes : Wal → List ℕ
log_bytes w = older_bytes w.older ++ current_bytes w.current

-- The current segment fits its buffer.
unfoldable pub Fitting : Option WalSegment → Type 0
Fitting none = Unit
Fitting (some s) = (s.capacity ≡ wal_segment_size) × (length s.bytes ≤ s.capacity)

bytes-written :
    (disk : Disk) (s : WalSegment) (files : List (ℕ × List ℕ))
    → (md_write_wal_segment_to_file disk s files).1.bytes ≡ s.bytes
unfolding md_write_wal_segment_to_file
bytes-written works s files = ground arith
bytes-written closed s files = ground arith
bytes-written (cut_off n) s files = ground arith

-- The segment that is written to holds what the log did not move to the older ones.
make_current-bytes :
    (disk : Disk) (now size : ℕ) (w : Wal) (current : Option WalSegment)
    → let (s, w') = make_current disk now size w current in
      older_bytes w'.older ++ s.bytes ≡ older_bytes w.older ++ current_bytes current
unfolding make_current current_bytes older_bytes
make_current-bytes disk now size w none = refl
make_current-bytes disk now size w (some s) =
    elim (Bool-cases (ltb s.capacity (length s.bytes + size))) [
      | inr e ↦ rw e refl
      | inl e ↦
          (let same = bytes-written disk s w.files in
            rw e (append-nil _ ∙ ap (λ bs. older_bytes w.older ++ bs) same))
    ]

log_bytes-lem : (w : Wal) → older_bytes w.older ++ current_bytes w.current ≡ log_bytes w
unfolding log_bytes
log_bytes-lem w = refl

make_current-fits :
    (disk : Disk) (now size : ℕ) (w : Wal) (current : Option WalSegment)
    → Fitting current
    → size ≤ wal_segment_size
    → let (s, w') = make_current disk now size w current in
      (s.capacity ≡ wal_segment_size) × (length s.bytes + size ≤ s.capacity)
unfolding make_current Fitting
make_current-fits disk now size w none v small = (refl, omega arith)
make_current-fits disk now size w (some s) v small =
    elim (Bool-cases (ltb s.capacity (length s.bytes + size))) [
      | inr e ↦ rw e (v.0, ground arith)
      | inl e ↦ rw e (refl, omega arith)
    ]

append_record-lem :
    (bytes : List ℕ) (s : WalSegment) (w : Wal)
    → (s.capacity ≡ wal_segment_size) × (length s.bytes + length bytes ≤ s.capacity)
    → (log_bytes (append_record bytes (s, w)) ≡ (older_bytes w.older ++ s.bytes) ++ bytes)
      × Fitting (append_record bytes (s, w)).current
unfolding append_record log_bytes current_bytes Fitting
append_record-lem bytes s w v = (
  sym (append_assoc (older_bytes w.older) s.bytes bytes),
  (v.0, omega (arith, v.1, length-append s.bytes bytes)),
)

log_on :
    (disk : Disk) (now : ℕ) (bytes : List ℕ) (w : Wal)
    → w.wal_enabled ≡ true
    → 0 < length bytes
    → md_transaction_log disk now bytes w
      ≡ (true, append_record bytes (make_current disk now (length bytes) w w.current))
unfolding md_transaction_log
log_on disk now bytes w on some_bytes =
    let done : Bool × Wal =
      (true, append_record bytes (make_current disk now (length bytes) w w.current)) in
    let refused : Bool × Wal = (false, w) in
    let nonempty : (length bytes == 0) ≡ false = ground arith in
    ap (λ b. if not b then refused else if length bytes == 0 then refused else done) on
    ∙ ap (λ b. if b then refused else done) nonempty

-- A record that is logged stands at the end of the log, after everything that stood there, and the
-- current segment still fits its buffer, if it did and the record is no larger than a segment.
pub md_transaction_log-appends :
    (disk : Disk) (now : ℕ) (bytes : List ℕ) (w : Wal)
    → w.wal_enabled ≡ true
    → 0 < length bytes
    → length bytes ≤ wal_segment_size
    → Fitting w.current
    → let (logged, w') = md_transaction_log disk now bytes w in
      (logged ≡ true) × (log_bytes w' ≡ log_bytes w ++ bytes) × Fitting w'.current
md_transaction_log-appends disk now bytes w on some_bytes small v =
    let made = make_current disk now (length bytes) w w.current in
    let kept = make_current-bytes disk now (length bytes) w w.current in
    let added =
      append_record-lem bytes made.0 made.1
        (make_current-fits disk now (length bytes) w w.current v small) in
    rw (log_on disk now bytes w on some_bytes)
      (refl, added.0 ∙ ap (λ bs. bs ++ bytes) (kept ∙ log_bytes-lem w), added.1)

make_current_room :
    (disk : Disk) (now size : ℕ) (w : Wal) (s : WalSegment)
    → length s.bytes + size ≤ s.capacity
    → make_current disk now size w (some s) ≡ (s, w)
unfolding make_current
make_current_room disk now size w s room =
    let full : ltb s.capacity (length s.bytes + size) ≡ false = ground arith in rw full refl

commit_on :
    (disk : Disk) (now id : ℕ) (w : Wal)
    → w.wal_enabled ≡ true
    → let logged = (md_transaction_log disk now (encode (header_of id 0 tx_committed now)) w).1 in
      md_transaction_commit disk now id w ≡ flush_current disk logged logged.current
unfolding md_transaction_commit
commit_on disk now id w on =
    let logged = (md_transaction_log disk now (encode (header_of id 0 tx_committed now)) w).1 in
    ap (λ b. if not b then w else flush_current disk logged logged.current) on

flush_files :
    (w : Wal) (s : WalSegment)
    → 0 < length s.bytes
    → (flush_current works w (some s)).files
      ≡ (if s.file_written then w.files else (s.segment_id, s.bytes) ∷ w.files)
unfolding flush_current md_write_wal_segment_to_file
flush_files w s long = ground arith

flush_appended :
    (bytes : List ℕ) (s : WalSegment) (w : Wal)
    → 0 < length (s.bytes ++ bytes)
    → (flush_current works (append_record bytes (s, w)) (append_record bytes (s, w)).current).files
      ≡ (if s.file_written then w.files else (s.segment_id, s.bytes ++ bytes) ∷ w.files)
unfolding append_record
flush_appended bytes s w long =
    flush_files (record w { current = some (record s { bytes = s.bytes ++ bytes }) })
      (record s { bytes = s.bytes ++ bytes }) long

-- What a commit leaves on disk, if the disk works and the current segment has room for the header:
-- the whole segment, the header included, when the segment was never written; when it was, nothing.
pub md_transaction_commit-files :
    (now id : ℕ) (w : Wal) (s : WalSegment)
    → w.wal_enabled ≡ true
    → w.current ≡ some s
    → length s.bytes + 52 ≤ s.capacity
    → (md_transaction_commit works now id w).files ≡ (
        if s.file_written
        then w.files
        else (s.segment_id, s.bytes ++ encode (header_of id 0 tx_committed now)) ∷ w.files)
md_transaction_commit-files now id w s on e room =
    let bytes = encode (header_of id 0 tx_committed now) in
    let size = length-encode (header_of id 0 tx_committed now) in
    let full : WalSegment = record s { bytes = s.bytes ++ bytes } in
    let some_bytes : 0 < length bytes = omega (arith, size) in
    let enough : length s.bytes + length bytes ≤ s.capacity = omega (arith, size, room) in
    let made : make_current works now (length bytes) w w.current ≡ (s, w) =
      ap (make_current works now (length bytes) w) e
      ∙ make_current_room works now (length bytes) w s enough in
    let logged : (md_transaction_log works now bytes w).1 ≡ append_record bytes (s, w) =
      ap (λ r. r.1) (log_on works now bytes w on some_bytes) ∙ ap (append_record bytes) made in
    let long : 0 < length full.bytes = omega (arith, size, length-append s.bytes bytes) in
    ap (λ r. r.files)
      (commit_on works now id w on ∙ ap (λ l. flush_current works l l.current) logged)
    ∙ flush_appended bytes s w long
