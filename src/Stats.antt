-- ===== src/Stats.antt =====
-- The storage counters of src/module_c/storage_monitor_basic.c, over the structures of
-- include/module_c/storage_monitor_basic.h. A ratio is given by its numerator and denominator. The
-- prediction, which only is copied in and out, is left out.
pub mod Laws
use smartbackup_fs.Base.{
  ℕ, zero, suc, ◌+◌, ◌-◌, ◌%◌, ◌^◌, Bool, true, false, List, [], ◌∷◌, get_or, set, ltb, ◌==◌,
  if◌then◌else◌,
}

-- `basic_storage_stats_t`
pub record StorageStats : Type 0 where
  pub total_blocks : ℕ
  pub unique_blocks : ℕ
  pub dedup_saved_bytes : ℕ
  pub compress_saved_bytes : ℕ
  pub compress_input_bytes : ℕ

-- a sum as a `uint64_t`
abbrev pub add64 : ℕ → ℕ → ℕ
add64 a b = (a + b) % 2 ^ 64

abbrev pub no_stats : StorageStats
no_stats = record {
  total_blocks = 0;
  unique_blocks = 0;
  dedup_saved_bytes = 0;
  compress_saved_bytes = 0;
  compress_input_bytes = 0;
}

abbrev pub smb_update_dedup_on_hit : ℕ → StorageStats → StorageStats
smb_update_dedup_on_hit saved s = record s { dedup_saved_bytes = add64 s.dedup_saved_bytes saved }

abbrev pub smb_update_unique_block : StorageStats → StorageStats
smb_update_unique_block s = record s {
  total_blocks = add64 s.total_blocks 1;
  unique_blocks = add64 s.unique_blocks 1;
}

-- Neither counter goes below 0.
abbrev pub smb_on_unique_block_removed : StorageStats → StorageStats
smb_on_unique_block_removed s = record s {
  total_blocks = s.total_blocks - 1;
  unique_blocks = s.unique_blocks - 1;
}

abbrev pub saving : ℕ → ℕ → ℕ
saving raw compressed = if ltb compressed raw then raw - compressed else 0

abbrev pub smb_update_compress : ℕ → ℕ → StorageStats → StorageStats
smb_update_compress raw compressed s = record s {
  compress_input_bytes = add64 s.compress_input_bytes raw;
  compress_saved_bytes = add64 s.compress_saved_bytes (saving raw compressed);
}

-- The ratio of blocks saved by deduplication is 1 less this fraction, a numerator and a denominator: the
-- unique blocks of all blocks. It is 0, so the fraction 1, if there are no blocks.
unfoldable pub dedup_ratio : StorageStats → ℕ × ℕ
dedup_ratio s = if s.total_blocks == 0 then (1, 1) else (s.unique_blocks, s.total_blocks)

-- what the other modules report
pub data Event : Type 0 where
  dedup_hit : ℕ → Event
  unique_added unique_removed : Event
  compression_done : ℕ → ℕ → Event

-- one report
unfoldable pub report : Event → StorageStats → StorageStats
report (Event.dedup_hit saved) s = smb_update_dedup_on_hit saved s
report Event.unique_added s = smb_update_unique_block s
report Event.unique_removed s = smb_on_unique_block_removed s
report (Event.compression_done raw size) s = smb_update_compress raw size s

unfoldable pub report_all : List Event → StorageStats → StorageStats
report_all [] s = s
report_all (e ∷ es) s = report_all es (report e s)

-- `compress_class_stats_t`
pub record ClassStats : Type 0 where
  pub raw_bytes : ℕ
  pub compressed_bytes : ℕ

abbrev pub smb_file_class_max : ℕ
smb_file_class_max = 4

-- A class out of range counts as unknown.
abbrev pub class_of : ℕ → ℕ
class_of cls = if ltb cls smb_file_class_max then cls else 0

abbrev pub smb_update_compress_class : ℕ → ℕ → ℕ → List ClassStats → List ClassStats
smb_update_compress_class cls raw compressed stats =
    let old = get_or stats (class_of cls) (record { raw_bytes = 0; compressed_bytes = 0 }) in
    set stats (class_of cls) (record {
      raw_bytes = add64 old.raw_bytes raw;
      compressed_bytes = add64 old.compressed_bytes compressed;
    })

-- `cache_stats_t`
pub record CacheStats : Type 0 where
  pub hits : List ℕ
  pub misses : List ℕ
  pub l1_usage_bytes : ℕ
  pub l2_usage_bytes : ℕ
  pub l3_usage_bytes : ℕ
  pub l2_dirty_slots : ℕ
  pub l2_total_slots : ℕ

-- nothing counted; `hits` and `misses` are those of the levels 1, 2 and 3
abbrev pub no_cache_stats : CacheStats
no_cache_stats = record {
  hits = 0 ∷ 0 ∷ 0 ∷ [];
  misses = 0 ∷ 0 ∷ 0 ∷ [];
  l1_usage_bytes = 0;
  l2_usage_bytes = 0;
  l3_usage_bytes = 0;
  l2_dirty_slots = 0;
  l2_total_slots = 0;
}

abbrev count_level : ℕ → List ℕ → List ℕ
count_level level xs = set xs (level - 1) (add64 (get_or xs (level - 1) 0) 1)

-- A level that is none of the three counts nothing.
abbrev pub smb_cache_update_hits : ℕ → Bool → CacheStats → CacheStats
smb_cache_update_hits zero hit s = s
smb_cache_update_hits (suc n) true s = record s { hits = count_level (suc n) s.hits }
smb_cache_update_hits (suc n) false s = record s { misses = count_level (suc n) s.misses }

abbrev pub smb_cache_set_usage : ℕ → ℕ → ℕ → CacheStats → CacheStats
smb_cache_set_usage l1 l2 l3 s = record s {
  l1_usage_bytes = l1;
  l2_usage_bytes = l2;
  l3_usage_bytes = l3;
}

abbrev pub smb_cache_set_l2_dirty : ℕ → ℕ → CacheStats → CacheStats
smb_cache_set_l2_dirty dirty slots s = record s { l2_dirty_slots = dirty; l2_total_slots = slots }
