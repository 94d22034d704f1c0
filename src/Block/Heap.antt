-- ===== src/Block/Heap.antt =====
-- Blocks in memory, by address. An address is handed out once, so an access to a block that was freed
-- shows as an access to an address that holds nothing. Memory for a new block is taken to be there.
use smartbackup_fs.Base.{ℕ, ◌+◌, Option, none, some, ◌==◌, if◌then◌else◌}
use smartbackup_fs.Block.{DataBlock}

pub record Heap : Type 0 where
  pub cells : ℕ → Option DataBlock
  pub next : ℕ

-- Nothing is allocated; 0 is the null pointer.
abbrev pub empty_heap : Heap
empty_heap = record { cells = λ _. none; next = 1 }

abbrev pub put_cell : ℕ → Option DataBlock → Heap → Heap
put_cell a v h = record h { cells = λ q. if q == a then v else h.cells q }

abbrev pub write : ℕ → DataBlock → Heap → Heap
write a b h = put_cell a (some b) h

-- The address of the new block.
abbrev pub alloc : DataBlock → Heap → ℕ × Heap
alloc b h = (h.next, write h.next b (record h { next = h.next + 1 }))

abbrev pub release : ℕ → Heap → Heap
release a h = put_cell a none h
