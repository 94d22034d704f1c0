-- ===== src/Backup.antt =====
-- The backups of src/module_d/module_d.c (md_create_full_backup and after it), over the structures of
-- include/module_d.h. An entry of the list is known by its address; a backup file by its id and start,
-- which make its path, and by its header, the only thing written to it. The backup thread is the two
-- steps before and after its sleep. What `md_calculate_checksum` makes of a header is a parameter, and
-- memory is taken to be there.
pub mod Laws
pub mod Full
use smartbackup_fs.Base.{
  ℕ, ◌+◌, ◌*◌, ◌%◌, ◌^◌, Bool, true, false, ◌&&◌, not, Option, none, some, List, [], ◌∷◌, ◌==◌,
  if◌then◌else◌, Status, success, failed,
}

-- `backup_type_t`
pub data BackupType : Type 0 where
  full incremental differential : BackupType

-- `backup_state_t`
pub data BackupPhase : Type 0 where
  pending running completed failing verified : BackupPhase

-- `backup_metadata_t`; `backup_path` is the start that stands in the path, with the id
pub record BackupMeta : Type 0 where
  pub address : ℕ
  pub backup_id : ℕ
  pub type : BackupType
  pub phase : BackupPhase
  pub start_time : ℕ
  pub end_time : ℕ
  pub total_size : ℕ
  pub file_count : ℕ
  pub backup_path : Option (ℕ × ℕ)
  pub base_backup : Option ℕ

-- `backup_header_t` without its checksum; the description is a constant
pub record HeaderFields : Type 0 where
  pub backup_id : ℕ
  pub type : BackupType
  pub phase : BackupPhase
  pub timestamp : ℕ
  pub total_size : ℕ
  pub file_count : ℕ

pub record BackupHeader : Type 0 where
  pub fields : HeaderFields
  pub header_checksum : ℕ

-- The backups' part of `module_d_state`, with the files, the next id and the next address; a file whose
-- header cannot be read whole is `some none`.
pub record Backups : Type 0 where
  pub backup_list : List BackupMeta
  pub backup_in_progress : Bool
  pub next_backup_id : ℕ
  pub next_address : ℕ
  pub successful_backups : ℕ
  pub failed_backups : ℕ
  pub successful_recoveries : ℕ
  pub files : ℕ × ℕ → Option (Option BackupHeader)

abbrev pub same_path : ℕ × ℕ → ℕ × ℕ → Bool
same_path (a, b) (c, d) = (a == c) && (b == d)

abbrev pub put_file : ℕ × ℕ → Option (Option BackupHeader) → Backups → Backups
put_file path content s = record s { files = λ q. if same_path q path then content else s.files q }

unfoldable pub find_backup : ℕ → List BackupMeta → Option BackupMeta
find_backup id [] = none
find_backup id (m ∷ ms) = if m.backup_id == id then some m else find_backup id ms

-- a write through the pointer to an entry
unfoldable pub update_at : ℕ → (BackupMeta → BackupMeta) → List BackupMeta → List BackupMeta
update_at a f [] = []
update_at a f (m ∷ ms) = if m.address == a then f m ∷ ms else m ∷ update_at a f ms

abbrev pub update : ℕ → (BackupMeta → BackupMeta) → Backups → Backups
update a f s = record s { backup_list = update_at a f s.backup_list }

abbrev pub new_meta : ℕ → ℕ → BackupType → Option ℕ → BackupMeta
new_meta address id type base = record {
  address = address;
  backup_id = id;
  type = type;
  phase = pending;
  start_time = 0;
  end_time = 0;
  total_size = 0;
  file_count = 0;
  backup_path = none;
  base_backup = base;
}

abbrev pub push_meta : ℕ → BackupType → Option ℕ → Backups → Backups
push_meta id type base s = record s {
  backup_list = new_meta s.next_address id type base ∷ s.backup_list;
  next_address = s.next_address + 1;
}

-- The id, 0 for none; `started` says whether the thread could be started.
unfoldable pub md_create_full_backup : Bool → Backups → ℕ × Backups
md_create_full_backup started s =
    let id = s.next_backup_id in
    let s' = record (push_meta id full none s) {
      next_backup_id = id + 1;
      backup_in_progress = started;
    } in
    if s.backup_in_progress then (0, s) else if started then (id, s') else (0, s')

unfoldable pub md_create_incremental_backup : ℕ → Bool → Backups → ℕ × Backups
md_create_incremental_backup base_id started s = elim (find_backup base_id s.backup_list) [
  | none ↦ (0, s)
  | some base ↦
      let (id, s') = md_create_full_backup started s in
      (id, push_meta id incremental (some base.address) s')
]

-- for a backup path that is set
abbrev pub md_create_backup : Bool → Backups → Status × Backups
md_create_backup started s =
    let (id, s') = md_create_full_backup started s in
    if s.backup_in_progress then (failed, s) else if id == 0 then (failed, s') else (success, s')

abbrev pub fail : ℕ → Backups → Backups
fail a s = record (update a (λ m. record m { phase = failing }) s) {
  failed_backups = s.failed_backups + 1;
  backup_in_progress = false;
}

abbrev pub first_header : BackupMeta → ℕ → HeaderFields
first_header m now = record {
  backup_id = m.backup_id;
  type = m.type;
  phase = running;
  timestamp = now;
  total_size = 0;
  file_count = 0;
}

abbrev pub last_header : BackupMeta → HeaderFields
last_header m = record {
  backup_id = m.backup_id;
  type = m.type;
  phase = completed;
  timestamp = m.start_time;
  total_size = 1024 * 1024;
  file_count = 100;
}

module _ (checksum : HeaderFields → ℕ) where
  abbrev pub sealed : HeaderFields → BackupHeader
  sealed h = record { fields = h; header_checksum = checksum h }

  -- `backup_thread_func` up to its sleep, for the entry `m`: `opened` says whether the file can be
  -- created and `written` whether the header can be written.
  unfoldable pub backup_begin : Bool → Bool → ℕ → BackupMeta → Backups → Backups
  backup_begin opened written now m s =
      let path : ℕ × ℕ = (m.backup_id, now) in
      let s' =
        update m.address
          (λ x. record x { phase = running; start_time = now; backup_path = some path }) s in
      if not opened
      then fail m.address s'
      else if not written
      then fail m.address (put_file path none s')
      else put_file path (some (some (sealed (first_header m now)))) s'

  -- The rest; `left` is what a write that fails leaves in the file.
  unfoldable pub backup_end : Bool → Option BackupHeader → ℕ → BackupMeta → Backups → Backups
  backup_end written left now m s =
      let path : ℕ × ℕ = (m.backup_id, m.start_time) in
      if not written
      then fail m.address (put_file path (some left) s)
      else record (put_file path (some (some (sealed (last_header m)))) (
          update m.address
            (λ x. record x {
              phase = completed;
              end_time = now;
              total_size = 1024 * 1024;
              file_count = 100;
            })
            s)) { successful_backups = s.successful_backups + 1; backup_in_progress = false }

  -- the checks on the file of an entry
  abbrev pub header_ok : Option (Option BackupHeader) → Bool
  header_ok none = false
  header_ok (some none) = false
  header_ok (some (some h)) = h.header_checksum == checksum h.fields

  abbrev pub restore_from : Option (ℕ × ℕ) → Backups → Status × Backups
  restore_from none s = (failed, s)
  restore_from (some path) s =
      if header_ok (s.files path)
      then (success, record s { successful_recoveries = s.successful_recoveries + 1 })
      else (failed, s)

  unfoldable pub md_restore_filesystem : ℕ → Backups → Status × Backups
  md_restore_filesystem id s = elim (find_backup id s.backup_list) [
    | none ↦ (failed, s)
    | some m ↦ restore_from m.backup_path s
  ]

abbrev pub exists : Option (Option BackupHeader) → Bool
exists none = false
exists (some _) = true

abbrev pub verify_at : ℕ → Option (ℕ × ℕ) → Backups → Status × Backups
verify_at a none s = (failed, s)
verify_at a (some path) s =
    if exists (s.files path)
    then (success, update a (λ m. record m { phase = verified }) s)
    else (failed, s)

unfoldable pub md_verify_backup : ℕ → Backups → Status × Backups
md_verify_backup id s = elim (find_backup id s.backup_list) [
  | none ↦ (failed, s)
  | some m ↦ verify_at m.address m.backup_path s
]

unfoldable pub drop_backup : ℕ → List BackupMeta → List BackupMeta
drop_backup id [] = []
drop_backup id (m ∷ ms) = if m.backup_id == id then ms else m ∷ drop_backup id ms

abbrev pub unlink_path : Option (ℕ × ℕ) → Backups → Backups
unlink_path none s = s
unlink_path (some path) s = put_file path none s

unfoldable pub md_delete_backup : ℕ → Backups → Status × Backups
md_delete_backup id s = elim (find_backup id s.backup_list) [
  | none ↦ (failed, s)
  | some m ↦
      (success, record (unlink_path m.backup_path s) { backup_list = drop_backup id s.backup_list })
]
