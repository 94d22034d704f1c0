-- ===== src/Backup/Full.antt =====
-- A full backup that runs through.
use smartbackup_fs.Base.{
  ℕ, ◌+◌, ◌*◌, ◌≡◌, refl, ap, ◌∙◌, true, false, Option, none, some, List, ◌∷◌, ◌==◌, success, arith,
}
use smartbackup_fs.Backup.{
  BackupMeta, BackupHeader, HeaderFields, Backups, full, running, completed, find_backup, update_at,
  new_meta, md_create_full_backup, backup_begin, backup_end, header_ok, restore_from,
  md_restore_filesystem, md_verify_backup, verify_at, last_header, sealed, exists,
}

same_number : (n : ℕ) → (n == n) ≡ true
same_number n = ground arith

update-head :
    (m : BackupMeta) (ms : List BackupMeta) (f : BackupMeta → BackupMeta)
    → update_at m.address f (m ∷ ms) ≡ (f m ∷ ms)
unfolding update_at
update-head m ms f = rw (same_number m.address) refl

find-head : (m : BackupMeta) (ms : List BackupMeta) → find_backup m.backup_id (m ∷ ms) ≡ some m
unfolding find_backup
find-head m ms = rw (same_number m.backup_id) refl

module _ (checksum : HeaderFields → ℕ) (id : ℕ) (t : Backups) (m : BackupMeta) (path : ℕ × ℕ)
    (h : HeaderFields) (found : find_backup id t.backup_list ≡ some m)
    (placed : m.backup_path ≡ some path)
    (file : t.files path ≡ some (some (sealed checksum h))) where
  restore-sealed : (md_restore_filesystem checksum id t).0 ≡ success
  unfolding md_restore_filesystem
  restore-sealed =
      let good : header_ok checksum (t.files path) ≡ true =
        ap (header_ok checksum) file ∙ same_number (checksum h) in
      rw (found, md_restore_filesystem, placed, restore_from, good) refl

  verify-sealed : (md_verify_backup id t).0 ≡ success
  unfolding md_verify_backup
  verify-sealed =
      let there : exists (t.files path) ≡ true = ap exists file in
      rw (found, md_verify_backup, placed, verify_at, there) refl

-- the entry when its thread is done
abbrev pub finished : BackupMeta → ℕ → ℕ → BackupMeta
finished m begun done = record m {
  phase = completed;
  start_time = begun;
  end_time = done;
  total_size = 1024 * 1024;
  file_count = 100;
  backup_path = some (m.backup_id, begun);
}

module _ (checksum : HeaderFields → ℕ) (s : Backups) (begun done : ℕ)
    (left : Option BackupHeader) where
  abbrev entry : BackupMeta
  entry = new_meta s.next_address s.next_backup_id full none

  -- the state when the thread is done
  abbrev pub done_state : Backups
  done_state =
      backup_end checksum true left done (record entry { start_time = begun })
        (backup_begin checksum true true begun entry (md_create_full_backup true s).1)

  list-finished :
      s.backup_in_progress ≡ false
      → done_state.backup_list ≡ (finished entry begun done ∷ s.backup_list)
  unfolding md_create_full_backup backup_begin backup_end
  list-finished idle =
      let stamp : BackupMeta → BackupMeta = λ x. record x {
        phase = running;
        start_time = begun;
        backup_path = some (s.next_backup_id, begun);
      } in
      let close : BackupMeta → BackupMeta = λ x. record x {
        phase = completed;
        end_time = done;
        total_size = 1024 * 1024;
        file_count = 100;
      } in
      rw (idle, md_create_full_backup)
        (ap (update_at s.next_address close) (update-head entry s.backup_list stamp)
          ∙ update-head (stamp entry) s.backup_list close)

  file-finished :
      done_state.files (s.next_backup_id, begun)
      ≡ some (some (sealed checksum (last_header (record entry { start_time = begun }))))
  unfolding md_create_full_backup backup_begin backup_end
  file-finished = rw (same_number s.next_backup_id, same_number begun) refl

  abbrev saved_file : Option (Option BackupHeader)
  saved_file = some (some (sealed checksum (last_header (record entry { start_time = begun }))))

-- A full backup that is started while no other is in progress, and whose file can be written, ends as
-- completed, counted as a success and with no backup in progress; its id can then be restored and
-- verified.
pub md_create_full_backup-restores :
    (checksum : HeaderFields → ℕ) (s : Backups) (begun done : ℕ) (left : Option BackupHeader)
    → s.backup_in_progress ≡ false
    → let id = s.next_backup_id in
      let t = done_state checksum s begun done left in
      ((md_create_full_backup true s).0 ≡ id)
      × (find_backup id t.backup_list
          ≡ some (finished (new_meta s.next_address id full none) begun done))
      × (t.successful_backups ≡ s.successful_backups + 1)
      × (t.backup_in_progress ≡ false)
      × ((md_restore_filesystem checksum id t).0 ≡ success)
      × ((md_verify_backup id t).0 ≡ success)
unfolding md_create_full_backup backup_begin backup_end
md_create_full_backup-restores checksum s begun done left idle =
    let id = s.next_backup_id in
    let t = done_state checksum s begun done left in
    let m = finished (new_meta s.next_address id full none) begun done in
    let list = list-finished checksum s begun done left idle in
    let found : find_backup id t.backup_list ≡ some m =
      ap (find_backup id) list ∙ find-head m s.backup_list in
    let file = file-finished checksum s begun done left in
    let h = last_header (record (new_meta s.next_address id full none) { start_time = begun }) in
    (
      rw (idle, md_create_full_backup) refl,
      found,
      rw (idle, md_create_full_backup) refl,
      refl,
      restore-sealed checksum id t m (id, begun) h found refl file,
      verify-sealed checksum id t m (id, begun) h found refl file,
    )
