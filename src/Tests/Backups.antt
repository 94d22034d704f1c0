-- ===== src/Tests/Backups.antt =====
-- Inputs for the backups (src/module_d/module_d.c): a state with one full backup, completed.
use smartbackup_fs.Base.{ℕ, ◌+◌, ◌≡◌, refl, true, false, none, some, [], ◌∷◌, success, failed}
use smartbackup_fs.Backup.{
  BackupMeta, HeaderFields, Backups, full, completed, find_backup, new_meta, md_create_full_backup,
  md_create_incremental_backup, backup_begin, md_restore_filesystem, md_verify_backup,
}
use smartbackup_fs.Backup.Laws.{begins, rests, goes, md_create_incremental_backup-fails}
use smartbackup_fs.Backup.Full.{finished, done_state, md_create_full_backup-restores}

abbrev checksum : HeaderFields → ℕ
checksum h = h.backup_id + h.total_size + h.file_count

abbrev first : BackupMeta
first = record {
  address = 100;
  backup_id = 1;
  type = full;
  phase = completed;
  start_time = 1000;
  end_time = 1003;
  total_size = 1048576;
  file_count = 100;
  backup_path = some (1, 1000);
  base_backup = none;
}

abbrev one_backup : Backups
one_backup = record {
  backup_list = first ∷ [];
  backup_in_progress = false;
  next_backup_id = 2;
  next_address = 101;
  successful_backups = 1;
  failed_backups = 0;
  successful_recoveries = 0;
  files = λ q. none;
}

-- the state after an incremental backup on the first
abbrev second : Backups
second = (md_create_incremental_backup 1 true one_backup).1

second-created : md_create_incremental_backup 1 true one_backup ≡ (2, second)
unfolding md_create_incremental_backup md_create_full_backup find_backup
second-created = refl

first-found : find_backup 1 one_backup.backup_list ≡ some first
unfolding find_backup
first-found = refl

abbrev begun : Backups
begun = backup_begin checksum true true 1010 (new_meta 101 2 full none) second

md_create_incremental_backup-fails_example :
    (md_restore_filesystem checksum 2 begun ≡ (failed, begun))
    × (md_verify_backup 2 begun ≡ (failed, begun))
md_create_incremental_backup-fails_example =
    md_create_incremental_backup-fails checksum 1 first one_backup 2 second begun first-found refl
      second-created
      (goes (begins true true 1010 (new_meta 101 2 full none) second refl) (rests begun))

md_create_full_backup-restores_example :
    let t = done_state checksum one_backup 1010 1013 none in
    ((md_create_full_backup true one_backup).0 ≡ 2)
    × (find_backup 2 t.backup_list ≡ some (finished (new_meta 101 2 full none) 1010 1013))
    × (t.successful_backups ≡ 2)
    × (t.backup_in_progress ≡ false)
    × ((md_restore_filesystem checksum 2 t).0 ≡ success)
    × ((md_verify_backup 2 t).0 ≡ success)
md_create_full_backup-restores_example =
    md_create_full_backup-restores checksum one_backup 1010 1013 none refl
