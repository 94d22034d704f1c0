-- ===== src/Dedup/Config.antt =====
-- The settings of deduplication, `dedup_config_t` of include/dedup.h, with the checks of
-- src/module_c/dedup.c, and the choice of an algorithm for a block, src/module_c/adaptive_compress.c.
-- The load of the machine is known by where it lies among the bounds that the choice asks for.
use smartbackup_fs.Base.{
  ℕ, ◌+◌, ◌-◌, ◌*◌, Bool, true, false, ◌&&◌, ◌||◌, not, List, [], ◌∷◌, take, length, ltb, leb, ◌==◌,
  if◌then◌else◌,
}
use smartbackup_fs.Block.{DataBlock}
use smartbackup_fs.Block.Io.{bytes_of}

-- A level below 1 is 0 here.
pub record DedupConfig : Type 0 where
  pub enable_deduplication : Bool
  pub enable_compression : Bool
  pub algo : ℕ
  pub compression_level : ℕ
  pub min_compress_size : ℕ

-- `compression_algorithm_t`
abbrev pub compression_none : ℕ
compression_none = 0

abbrev pub compression_lz4 : ℕ
compression_lz4 = 1

abbrev pub compression_zstd : ℕ
compression_zstd = 2

abbrev pub compression_gzip : ℕ
compression_gzip = 3

abbrev pub clamp_level : ℕ → ℕ
clamp_level level = if ltb level 1 then 1 else if ltb 9 level then 9 else level

unfoldable pub dedup_validate_config : DedupConfig → DedupConfig
dedup_validate_config cfg =
    let algo = if ltb compression_gzip cfg.algo then compression_lz4 else cfg.algo in
    record {
      enable_deduplication = cfg.enable_deduplication;
      enable_compression = cfg.enable_compression && not (algo == compression_none);
      algo = algo;
      compression_level = clamp_level cfg.compression_level;
      min_compress_size = if ltb cfg.min_compress_size 512 then 512 else cfg.min_compress_size;
    }

abbrev pub dedup_set_compression : ℕ → ℕ → DedupConfig → DedupConfig
dedup_set_compression algo level cfg = record cfg {
  algo = algo;
  compression_level = level;
  enable_compression = not (algo == compression_none);
}

-- what `dedup_init` takes without a configuration
abbrev pub default_config : DedupConfig
default_config = record {
  enable_deduplication = false;
  enable_compression = false;
  algo = compression_none;
  compression_level = 1;
  min_compress_size = 1024;
}

-- Where the normalised load lies: unknown if negative, then below 0.5, up to 1.0, up to 1.2, up to 1.5,
-- and above.
pub data Load : Type 0 where
  unknown idle normal busy loaded_up overloaded : Load

unfoldable pub is_prefix : List ℕ → List ℕ → Bool
is_prefix [] bs = true
is_prefix (m ∷ ms) [] = false
is_prefix (m ∷ ms) (b ∷ bs) = (m == b) && is_prefix ms bs

-- Bytes past the end of the buffer match nothing.
abbrev pub has_magic : DataBlock → List ℕ → Bool
has_magic b magic = not (ltb b.size (length magic)) && is_prefix magic (bytes_of b)

unfoldable pub ac_is_already_compressed : DataBlock → Bool
ac_is_already_compressed b =
    has_magic b (31 ∷ 139 ∷ [])
    || has_magic b (80 ∷ 75 ∷ 3 ∷ 4 ∷ [])
    || has_magic b (120 ∷ 156 ∷ [])
    || has_magic b (40 ∷ 181 ∷ 47 ∷ 253 ∷ [])
    || has_magic b (4 ∷ 34 ∷ 77 ∷ 24 ∷ [])

abbrev is_text_byte : ℕ → Bool
is_text_byte c = (c == 10) || (c == 13) || (c == 9) || (leb 32 c && ltb c 127)

abbrev pub count_text : List ℕ → ℕ
count_text [] = 0
count_text (c ∷ cs) = (if is_text_byte c then 1 else 0) + count_text cs

-- more than four fifths of the sample
unfoldable pub looks_text : DataBlock → Bool
looks_text b =
    let sample = if ltb b.size 4096 then b.size else 4096 in
    not (b.size == 0) && ltb (4 * sample) (5 * count_text (take sample (bytes_of b)))

-- `ac_file_type_t`: unknown, text, compressed, binary
abbrev pub file_text : ℕ
file_text = 1

abbrev pub file_binary : ℕ
file_binary = 3

abbrev pub file_compressed : ℕ
file_compressed = 2

-- A block has a buffer.
abbrev pub ac_detect_file_type : DataBlock → ℕ
ac_detect_file_type b =
    if ac_is_already_compressed b
    then file_compressed
    else if looks_text b
    then file_text
    else file_binary

-- the algorithm before the load is looked at
abbrev pub preferred : ℕ → DedupConfig → ℕ
preferred type cfg =
    if not (cfg.algo == compression_none)
    then cfg.algo
    else if type == file_text
    then compression_zstd
    else compression_lz4

abbrev pub under_load : Load → ℕ → ℕ
under_load overloaded algo = compression_none
under_load loaded_up algo = if algo == compression_zstd then compression_lz4 else algo
under_load _ algo = algo

unfoldable pub ac_select_algorithm : Load → DataBlock → DedupConfig → ℕ
ac_select_algorithm load b cfg =
    let type = ac_detect_file_type b in
    if type == file_compressed then compression_none else under_load load (preferred type cfg)

abbrev pub level_under_load : Load → ℕ → ℕ
level_under_load overloaded level = level - 3
level_under_load loaded_up level = level - 2
level_under_load busy level = level - 2
level_under_load idle level = level + 1
level_under_load _ level = level
