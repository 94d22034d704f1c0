-- ===== src/Tests/Checks.antt =====
-- Inputs for the integrity checks (src/module_d/module_d.c): blocks whose stored hash is not their data's.
use smartbackup_fs.Base.{ℕ, ◌≡◌, refl, true, some, none, List, [], ◌∷◌, replicate, success, arith}
use smartbackup_fs.Block.{DataBlock}
use smartbackup_fs.Integrity.{
  Monitor, verify_block_integrity, md_write_with_verification, scan_blocks,
}
use smartbackup_fs.Integrity.Laws.{verify_block_integrity_blind}

abbrev sha256 : List ℕ → List ℕ
sha256 bytes = bytes

abbrev block : ℕ → DataBlock
block id = record {
  block_id = id;
  buffer = some (1 ∷ 2 ∷ 3 ∷ 4 ∷ []);
  size = 4;
  compressed_size = 0;
  file_type = 0;
  hash = replicate 32 9;
  compression = 0;
  ref_count = 1;
  file_ino = 0;
  offset = 0;
  checksum = 0;
}

abbrev monitor : Monitor
monitor = record {
  enable_write_verification = true;
  integrity_scan_running = true;
  corrupted_blocks_found = 0;
  alerts = [];
}

verify_block_integrity_blind_example :
    (verify_block_integrity sha256 (block 3)
      ≡ some (success, record (block 3) { hash = 1 ∷ 2 ∷ 3 ∷ 4 ∷ [] }))
    × (scan_blocks sha256 block 1000 250 3 0 monitor ≡ some (0, monitor))
    × ((b' : DataBlock) × ((md_write_with_verification sha256 77 2 1000 (block 3) monitor
            ≡ some (success, b', monitor))
          × (b'.buffer ≡ some (1 ∷ 2 ∷ 3 ∷ 4 ∷ []))))
    × (md_write_with_verification sha256 77 5 1000
          (block 3)
          (record monitor { enable_write_verification = true })
        ≡ none)
verify_block_integrity_blind_example =
    verify_block_integrity_blind sha256 1000 block (λ _. 1 ∷ 2 ∷ 3 ∷ 4 ∷ []) 77 2 5 3 250 monitor
      (λ _. (refl, omega arith)) (omega arith) (omega arith) (omega arith)
