-- ===== src/Version/Read.antt =====
-- `version_manager_read_version_data`: the bytes of a file at a version, block by block.
pub mod Image
pub mod Laws
use smartbackup_fs.Base.{
  ℕ, zero, suc, ◌+◌, ◌-◌, ◌/◌, ◌%◌, Option, none, some, List, [], ◌∷◌, ◌++◌, take, drop, replicate,
  ltb, leb, if◌then◌else◌,
}
use smartbackup_fs.Version.Types.{VersionNode, FileMeta, find_version}
use smartbackup_fs.Version.Lookup.{BlockData, snapshot_get_block_data}

-- -EINVAL; a handle of a version that was freed; the bytes that end up in the buffer
pub data ReadResult : Type 0 where
  refused dangling : ReadResult
  bytes : List ℕ → ReadResult

-- what one round puts into the buffer: `n` bytes of a block from `off` on, zeros where it has none
pub chunk : Option BlockData → ℕ → ℕ → List ℕ
chunk none off n = replicate n 0
chunk (some (blk, avail)) off n =
    if leb avail off
    then replicate n 0
    else (let copy_len = if ltb avail (off + n) then avail - off else n in
        take copy_len (drop off blk) ++ replicate (n - copy_len) 0)

abbrev pub to_read : ℕ → ℕ → ℕ → ℕ
to_read block_size off left = if ltb left (block_size - off) then left else block_size - off

-- The loop, on fuel; `look` gives a block's data.
pub read_loop : ℕ → ℕ → (ℕ → Option BlockData) → ℕ → ℕ → ℕ → List ℕ
read_loop zero block_size look size bytes_read current = []
read_loop (suc fuel) block_size look size bytes_read current =
    let n = to_read block_size (current % block_size) (size - bytes_read) in
    let rest = read_loop fuel block_size look size (bytes_read + n) (current + n) in
    if ltb bytes_read size
    then chunk (look (current / block_size)) (current % block_size) n ++ rest
    else []

-- Each round reads a byte, so `size` rounds are enough.
pub read_blocks : ℕ → (ℕ → Option BlockData) → ℕ → ℕ → List ℕ
read_blocks block_size look size offset = read_loop (suc size) block_size look size 0 offset

-- the data of a block of the version, if it had the block
unfoldable pub look_up : List VersionNode → VersionNode → ℕ → Option BlockData
look_up nodes vn i =
    if ltb i vn.snapshot_count then snapshot_get_block_data nodes vn.addr i else none

pub read_version : ℕ → List VersionNode → VersionNode → ℕ → ℕ → List ℕ
read_version block_size nodes vn size offset =
    if leb vn.file_size offset
    then []
    else read_blocks block_size (look_up nodes vn)
        (if ltb (vn.file_size - offset) size then vn.file_size - offset else size) offset

-- A negative offset reads nothing, as does one past the end; offsets are numbers here.
pub version_manager_read_version_data : ℕ → List VersionNode → Option FileMeta → ℕ → ℕ → ReadResult
version_manager_read_version_data block_size nodes none size offset = ReadResult.refused
version_manager_read_version_data block_size nodes (some vmeta) size offset =
    elim vmeta.version_handle [
      | none ↦ ReadResult.refused
      | some a ↦ elim (find_version a nodes) [
        | none ↦ ReadResult.dangling
        | some vn ↦ ReadResult.bytes (read_version block_size nodes vn size offset)
      ]
    ]
