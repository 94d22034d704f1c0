-- ===== src/Lib.antt =====
-- A model of SmartBackup FS, a versioning file system on FUSE in C, and proofs about it.
--
-- The parts of the program that are modelled, and where:
-- (HashTable) the chained hash table of src/module_a/metadata_manager.c (hash_table_*, hash_function).
--   Chain has the nodes of a bucket, Buckets what a valid table is and which map it stands for.
-- (Lru) the bounded cache over that table (lru_cache_*), which the version manager keeps copies of
--   metadata in.
-- (Block) data blocks, from include/smartbackupfs.h, block_decompress of src/module_c/dedup.c, and in
--   Block.Io read_block, write_block and allocate_block of src/module_a/metadata_manager.c.
-- (Directory) the entries of a directory, of the same file, and in Directory.Paths lookup_path.
-- (Version) the version manager, src/module_b/version_manager.c. Types has version_node_t,
--   version_chain_t and the metadata it uses; Lookup the search for a block through the parents
--   (snapshot_get_block_data); Remove version_remove_node_locked, which copies inherited blocks into
--   the heir; Retention version_apply_retention_locked; Create version_manager_create_version; Read
--   version_manager_read_version_data; Query the lookups by name and time, the list and the
--   difference; Manage the start, the chains by file, the policies, deletion and marking.
-- (Wal) the write-ahead log of src/module_d/module_d.c (md_transaction_*), Header the bytes of a
--   transaction_header_t, Recovery md_recover_from_wal_file.
-- (Cache) the cache of blocks in three levels, src/module_c/cache.c, with its operations across the
--   levels in Cache itself: Level1 the bounded list, Level2 the slots, Level3 the files. Blocks lie in a
--   memory by address, Block.Heap, which the two parts below use too.
-- (Dedup) src/module_c/dedup.c, dedup_core.c and adaptive_compress.c: Config the settings and the choice
--   of an algorithm, Index the index by hash, the reference counts and copy_on_write, Dedup itself
--   block_compress and dedup_process_block_on_write, Serial the record of a block's metadata.
-- (Files) smart_write_file of src/module_a/metadata_manager.c over the cache and Dedup, and in
--   Files.Read smart_read_file.
-- (Backup) the backups of src/module_d/module_d.c; the backup thread is a step relation.
-- (Integrity) the checks of blocks, the alerts and the health check of src/module_d/module_d.c, over
--   src/module_c/module_d_adapter.c.
-- (Stats) the storage and cache counters of src/module_c/storage_monitor_basic.c.
-- (Base) shared names, lists by native numbers, the Boolean tests, the result codes.
-- (Tests) the theorems at concrete inputs.
--
-- A function that changes state takes the state and gives the new one, with its result. A pointer to
-- a version is its address, looked up in the list of the versions in memory; an access to a freed
-- one is `none`, and so is a read past the end of a buffer by a hash or a write to the third cache
-- level. The times, the success of an allocation or of the disk, and the addresses that calloc gives
-- are arguments; what is left undefined in new memory is one too. The decompressors of third-party
-- libraries, strtol, localtime and the formatting of text are parameters. Locks make every operation
-- atomic, and are left out. Numbers wrap where C computes on fewer bits and it can matter. SHA-256
-- and the compressors are parameters too; the load of the machine is known by the bounds that it
-- lies between.
--
-- The loops of smart_read_file and smart_write_file have a round for every byte asked for. Four more
-- loops run on fuel: the climb through the parents has one round for every version and one
-- more, reading a version one round for every byte asked for and one more, recovery one for every byte
-- of the file and one more, the eviction of the third level one for every entry and one more. The
-- theorems about these four show that this is enough.
--
-- Not modelled: the FUSE operations and the glue between the modules, console output, predictions in
-- floating point, the splitting of blocks, the configuration file, the report on health, the
-- starting and joining of threads, and the contents of the mapped file of the second cache level,
-- which is only written.
pub mod Base
pub mod HashTable
pub mod Lru
pub mod Block
pub mod Version
pub mod Wal
pub mod Directory
pub mod Cache
pub mod Backup
pub mod Integrity
pub mod Dedup
pub mod Files
pub mod Stats
pub mod Tests
