-- ===== src/Integrity.antt =====
-- The integrity checks and the alerts of src/module_d/module_d.c, over the adapter that does the checks,
-- src/module_c/module_d_adapter.c. The hash functions are parameters; a checksum is a number of 32
-- bits. Memory is taken to be there, and a thread of the scan is its loop over
-- the ids that it is given, which `md_stop_integrity_scan` may cut off after any of them.
pub mod Laws
use smartbackup_fs.Base.{
  ℕ, zero, suc, ◌+◌, ◌-◌, ◌*◌, ◌/◌, ◌%◌, ◌^◌, Bool, true, false, ◌&&◌, not, Option, none, some,
  List, [], ◌∷◌, ◌++◌, take, drop, length, replicate, ltb, leb, ◌==◌, if◌then◌else◌, Status,
  success, failed,
}
use smartbackup_fs.Block.{DataBlock}
use smartbackup_fs.Block.Io.{bytes_of}
use smartbackup_fs.Wal.Header.{to_bytes, from_bytes}

-- `alert_level_t`
pub data AlertLevel : Type 0 where
  info warning error critical : AlertLevel

-- the texts of the components and messages
pub data AlertText : Type 0 where
  data_integrity corrupted_found write_check write_failed data_repair not_repaired backup_system :
      AlertText
  failure_rate_high transaction_system too_many_transactions : AlertText

-- `alert_info_t`
pub record AlertInfo : Type 0 where
  pub level : AlertLevel
  pub timestamp : ℕ
  pub message : AlertText
  pub component : AlertText
  pub acknowledged : Bool

-- The monitor's part of `module_d_state`, the newest alert first.
pub record Monitor : Type 0 where
  pub enable_write_verification : Bool
  pub integrity_scan_running : Bool
  pub corrupted_blocks_found : ℕ
  pub alerts : List AlertInfo

-- The component and the message are not null.
abbrev pub md_add_alert : AlertLevel → AlertText → AlertText → ℕ → Monitor → Monitor
md_add_alert level component message now m = record m {
  alerts =
      record {
        level = level;
        timestamp = now;
        message = message;
        component = component;
        acknowledged = false;
      }
      ∷ m.alerts;
}

-- the copies are pushed one by one, which turns the order around
unfoldable pub pending_onto : List AlertInfo → List AlertInfo → List AlertInfo
pending_onto [] acc = acc
pending_onto (a ∷ rest) acc =
    if a.acknowledged then pending_onto rest acc else pending_onto rest (a ∷ acc)

abbrev pub md_get_pending_alerts : Monitor → List AlertInfo
md_get_pending_alerts m = pending_onto m.alerts []

-- It only prints.
abbrev pub md_acknowledge_alert : ℕ → Monitor → Status × Monitor
md_acknowledge_alert id m = (success, m)

-- The totals are those of the backups and of the log.
unfoldable pub md_run_health_check : ℕ → ℕ → ℕ → ℕ → Monitor → Monitor
md_run_health_check failed_backups successful_backups total_transactions now m =
    let m1 =
      if ltb 0 m.corrupted_blocks_found
      then md_add_alert warning data_integrity corrupted_found now m
      else m in
    let m2 =
      if ltb (successful_backups / 10) failed_backups
      then md_add_alert error backup_system failure_rate_high now m1
      else m1 in
    if ltb 1000000 total_transactions
    then md_add_alert info transaction_system too_many_transactions now m2
    else m2

module _ (sha256 : List ℕ → List ℕ) where
  -- `dedup_core_calculate_hash` into a buffer that is not the block's: the block gets the hash too. It
  -- hashes as many bytes as the block's size says; to read them past the end of the buffer is `none`.
  abbrev pub dedup_core_calculate_hash : DataBlock → Option (List ℕ × DataBlock)
  dedup_core_calculate_hash b =
      let hash = sha256 (take b.size (bytes_of b)) in
      if leb b.size (length (bytes_of b)) then some (hash, record b { hash = hash }) else none

  abbrev pub first_bytes : Option (List ℕ × DataBlock) → Option (ℕ × DataBlock)
  first_bytes none = none
  first_bytes (some (hash, b)) = some ((from_bytes 4 hash).0, b)

  abbrev pub checksum_of : Option (List ℕ) → DataBlock → Option (ℕ × DataBlock)
  checksum_of none b = some (0, b)
  checksum_of (some _) b = first_bytes (dedup_core_calculate_hash b)

  -- the first four bytes of the hash; a block without a buffer has 0
  unfoldable pub calculate_block_checksum : DataBlock → Option (ℕ × DataBlock)
  calculate_block_checksum b = checksum_of b.buffer b

  abbrev pub verdict : Option (ℕ × DataBlock) → Option (Status × DataBlock)
  verdict none = none
  verdict (some (current, b)) =
      some ((if current == (from_bytes 4 b.hash).0 then success else failed), b)

  -- the stored checksum is read after the current one is computed
  unfoldable pub verify_block_integrity : DataBlock → Option (Status × DataBlock)
  verify_block_integrity b = verdict (calculate_block_checksum b)

  abbrev pub count_corrupted : ℕ → Status → Monitor → Monitor
  count_corrupted now success m = m
  count_corrupted now _ m =
      md_add_alert error data_integrity corrupted_found now
        (record m { corrupted_blocks_found = m.corrupted_blocks_found + 1 })

  abbrev pub count_verdict :
      ℕ → Monitor → Option (Status × DataBlock) → Option (Status × DataBlock × Monitor)
  count_verdict now m none = none
  count_verdict now m (some (r, b)) = some (r, b, count_corrupted now r m)

  unfoldable pub md_verify_block_integrity :
      ℕ → DataBlock → Monitor → Option (Status × DataBlock × Monitor)
  md_verify_block_integrity now b m = count_verdict now m (verify_block_integrity b)

  abbrev pub count_unverified :
      ℕ → Option (Status × DataBlock × Monitor) → Option (Status × DataBlock × Monitor)
  count_unverified now none = none
  count_unverified now (some (success, b, m)) = some (success, b, m)
  count_unverified now (some (r, b, m)) =
      some (r, b, md_add_alert error write_check write_failed now m)

  -- whether or not writes are verified
  abbrev pub verify_if : Bool → ℕ → DataBlock → Monitor → Option (Status × DataBlock × Monitor)
  verify_if false now b m = some (success, b, m)
  verify_if true now b m = count_unverified now (md_verify_block_integrity now b m)

  -- The bytes are not written; `new_checksum` is what `md_calculate_checksum` makes of them.
  unfoldable pub md_write_with_verification :
      ℕ → ℕ → ℕ → DataBlock → Monitor → Option (Status × DataBlock × Monitor)
  md_write_with_verification new_checksum size now b m =
      let b' = record b { size = size; hash = to_bytes 4 new_checksum ++ drop 4 b.hash } in
      if size == 0 then some (failed, b, m) else verify_if m.enable_write_verification now b' m

  -- the adapter's repair always fails
  unfoldable pub md_handle_corrupted_block : ℕ → Monitor → Status × Monitor
  md_handle_corrupted_block now m = (failed, md_add_alert error data_repair not_repaired now m)

  -- what a thread of the scan counts
  abbrev pub scan_one : ℕ → Status → ℕ → Monitor → ℕ × Monitor
  scan_one now success found m = (found, m)
  scan_one now _ found m = (found + 1, (md_handle_corrupted_block now m).1)

  -- The ids from `id` on, `n` of them: how many are corrupted, and the monitor.
  unfoldable pub scan_blocks : (ℕ → DataBlock) → ℕ → ℕ → ℕ → ℕ → Monitor → Option (ℕ × Monitor)
  scan_blocks get_block_by_id now zero id found m = some (found, m)
  scan_blocks get_block_by_id now (suc n) id found m =
      elim (md_verify_block_integrity now (get_block_by_id id) m) [
        | none ↦ none
        | some (r, _, m1) ↦
            let (found', m2) = scan_one now r found m1 in
            scan_blocks get_block_by_id now n (id + 1) found' m2
      ]

abbrev pub max_integrity_scan_threads : ℕ
max_integrity_scan_threads = 4

-- The first and the last id of a thread of `md_start_integrity_scan`; there is at least one block for
-- each thread.
unfoldable pub scan_range : ℕ → ℕ → ℕ × ℕ
scan_range total_blocks i =
    let per = total_blocks / max_integrity_scan_threads in
    let rest =
      if i == max_integrity_scan_threads - 1
      then total_blocks % max_integrity_scan_threads
      else 0 in
    (i * per, (i + 1) * per - 1 + rest)
