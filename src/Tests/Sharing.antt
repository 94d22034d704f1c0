-- ===== src/Tests/Sharing.antt =====
-- Inputs for deduplication and file writes (src/module_c/dedup.c, src/module_a/metadata_manager.c): two
-- files that share a block of four bytes.
use smartbackup_fs.Base.{
  ℕ, ◌≡◌, refl, true, false, none, some, List, [], ◌∷◌, ◌++◌, length, replicate, inr, arith,
}
use smartbackup_fs.HashTable.{hash_table_create}
use smartbackup_fs.HashTable.Buckets.{hash_table_create-Models}
use smartbackup_fs.Cache.Level1.Laws.{total_size, has_entry, Distinct, IsTracked}
use smartbackup_fs.Block.{DataBlock, is_compressed}
use smartbackup_fs.Block.Heap.{write}
use smartbackup_fs.Stats.{no_stats}
use smartbackup_fs.Cache.{empty_cache}
use smartbackup_fs.Dedup.Config.{normal, default_config}
use smartbackup_fs.Dedup.Index.{Libraries, Blocks}
use smartbackup_fs.Dedup.Serial.{
  Fits, filled, block_metadata_serialize, block_metadata_deserialize,
  block_metadata_deserialize-block_metadata_serialize,
}
use smartbackup_fs.Files.{OpenFile, write_slot, smart_write_file}
use smartbackup_fs.Files.Again.{smart_read_file-smart_write_file}
use smartbackup_fs.Files.Read.{smart_read_file}
use smartbackup_fs.Files.Holes.{smart_read_file-hole}
use smartbackup_fs.Files.Laws.{IsWrittenThrough, write_slot-shared}

abbrev libraries : Libraries
libraries = record {
  sha256 = λ bytes. replicate 32 0;
  compress = λ algorithm input capacity level. none;
  bound = λ algorithm size. size;
  decompress = λ algorithm input capacity. none;
  have_zlib = false;
  junk_type = λ id. 1;
}

abbrev shared_block : DataBlock
shared_block = record {
  block_id = 7;
  buffer = some (1 ∷ 2 ∷ 3 ∷ 4 ∷ []);
  size = 4;
  compressed_size = 0;
  file_type = 0;
  hash = replicate 32 9;
  compression = 0;
  ref_count = 2;
  file_ino = 1;
  offset = 0;
  checksum = 0;
}

abbrev state : Blocks
state = record {
  block_hash_index = hash_table_create 4;
  total_unique_blocks = 1;
  saved_space = 4;
  g_config = default_config;
  dedup_config = default_config;
  storage = no_stats;
  classes = [];
  total_blocks = 8;
  used_blocks = 1;
  cache = record (empty_cache 100) {
    heap = write 50 shared_block (record { cells = λ _. none; next = 60 });
  };
}

abbrev file : OpenFile
file = record {
  ino = 2;
  is_regular = true;
  size = 4;
  blocks = 1;
  atime = 0;
  mtime = 0;
  slots = some 50 ∷ [];
  block_index = none;
}

shared_block-plain : is_compressed shared_block ≡ false
unfolding is_compressed
shared_block-plain = refl

write_slot-shared_example :
    IsWrittenThrough libraries.decompress 50 0 shared_block
      (8 ∷ 9 ∷ [])
      1
      (write_slot libraries normal 4 1000 true [] 0 50 (8 ∷ 9 ∷ []) 1 file state)
write_slot-shared_example =
    write_slot-shared libraries normal 4 1000 true [] 0 50 shared_block (1 ∷ 2 ∷ 3 ∷ 4 ∷ [])
      (8 ∷ 9 ∷ []) 1 file state refl (omega arith) (omega arith) refl refl shared_block-plain
      (omega arith) (omega arith) (omega arith) refl refl refl

shared_block-Fits : Fits shared_block
shared_block-Fits = record {
  block_id = omega arith;
  size = omega arith;
  compressed_size = omega arith;
  compression = omega arith;
  hash = refl;
  ref_count = omega arith;
}

block_metadata_deserialize-block_metadata_serialize_example :
    (bytes : List ℕ) × ((block_metadata_serialize shared_block 57 ≡ some bytes)
      × ((length bytes ≡ 65)
          × (block_metadata_deserialize (bytes ++ (5 ∷ [])) 57 shared_block
              ≡ some (filled shared_block shared_block))))
block_metadata_deserialize-block_metadata_serialize_example =
    block_metadata_deserialize-block_metadata_serialize shared_block shared_block 57 (5 ∷ [])
      shared_block-Fits (omega arith)

-- a sparse file of one block's slot and ten bytes
abbrev sparse : OpenFile
sparse = record file { size = 10 }

smart_read_file-hole_example :
    (buf' : List ℕ) × (smart_read_file libraries 4 2000 true sparse
        (5 ∷ 5 ∷ 5 ∷ 5 ∷ 5 ∷ 5 ∷ [])
        6
        4
        state
      ≡ some (inr (0, buf'), record sparse { atime = 2000 }, state))
smart_read_file-hole_example =
    smart_read_file-hole libraries 4 2000 true sparse (5 ∷ 5 ∷ 5 ∷ 5 ∷ 5 ∷ 5 ∷ []) 6 4 state refl
      (omega arith) (omega arith) (omega arith)

-- a new file, and the first level of the cache before anything is put
abbrev fresh_file : OpenFile
fresh_file = record file { slots = []; size = 0 }

l1-IsTracked : IsTracked state.cache.l1
unfolding total_size has_entry Distinct
l1-IsTracked =
    let m = hash_table_create-Models 16384 (omega arith) in
    record { valid = m.valid; distinct = tt; counted = refl; agree = λ q. rw (m.reads q) refl }

smart_read_file-smart_write_file_example :
    (f' : OpenFile) × ((t : Blocks) × ((t' : Blocks) × ((smart_write_file libraries normal 4 1000
              true
              (0 ∷ 0 ∷ 0 ∷ 0 ∷ [])
              fresh_file
              (8 ∷ 9 ∷ [])
              1
              state
            ≡ some (inr 2, f', t))
          × (smart_read_file libraries 4 2000 true f' (5 ∷ 5 ∷ 5 ∷ []) 2 1 t
              ≡ some (inr (2, (8 ∷ 9 ∷ 5 ∷ [])), record f' { atime = 2000 }, t')))))
smart_read_file-smart_write_file_example =
    smart_read_file-smart_write_file libraries normal 4 1000 2000 true (0 ∷ 0 ∷ 0 ∷ 0 ∷ [])
      (8 ∷ 9 ∷ []) (5 ∷ 5 ∷ 5 ∷ []) 1 fresh_file state refl refl refl (omega arith) (omega arith)
      refl refl refl l1-IsTracked
