-- ===== src/Memory/Memlib.antt =====
-- Kernel/system/MemoryManagement/memlib.c: blocks of pages from the buddy system.
pub mod Pages
mod Tests
use so_realtime.Prelude.{
  ℕ, ◌+◌, ◌-◌, ◌*◌, ◌/◌, ◌%◌, ◌^◌, List, ltb, ◌==◌, if◌then◌else◌, minus_one, add64, Outcome, done,
  fault, ◌>>=◌,
}
use so_realtime.KernelLib.{Bytes}
use so_realtime.Process.{Process}
use so_realtime.Memory.Chunks.{Chunk}
use so_realtime.Memory.Kmem.{init_kheap}
use so_realtime.Memory.Pmem.{pinit_heap, pmalloc, pcalloc, pfree}
use so_realtime.Memory.Buddy.{
  Node, Pool, unset, headless, ready, Reply, buddy_init, buddy_alloc, buddy_free,
}

abbrev pub page_size : ℕ
page_size = 4096

abbrev pub mem_start : ℕ
mem_start = 0x600000

unfoldable pub paged_size : ℕ → ℕ
paged_size size =
    if size % page_size == 0 then size else page_size * (size / page_size + 1) % 2 ^ 64

-- The kernel's memory: the pool of the buddy system, and the kernel's heap.
pub record Memory : Type 0 where
  pub pool : Pool
  pub heap : List Chunk

unfoldable pub init_mem : ℕ → Outcome (ℕ × Memory)
unfolding init_kheap paged_size buddy_init
init_mem size =
    buddy_init (paged_size size) init_kheap >>= λ r. done (r.0, record { pool = r.1; heap = r.2 })

-- `int index = ...` keeps the low 32 bits; -1 stands for NULL, and a negative index is extended.
abbrev pub block_address : ℕ → ℕ
block_address rt =
    let low = rt % 2 ^ 32 in
    if low == 2 ^ 32 - 1
    then 0
    else if ltb low (2 ^ 31)
    then mem_start + low
    else add64 mem_start (low + 2 ^ 64 - 2 ^ 32)

abbrev pub with_head : ℕ → Reply → Memory
with_head p o = record { pool = ready p o.1; heap = o.2 }

-- Without a head the code reads through a null pointer.
unfoldable pub get_memblock : ℕ → Memory → Outcome (ℕ × Memory)
unfolding paged_size
get_memblock size m = elim m.pool [
  | unset ↦ fault
  | headless p ↦ fault
  | ready p head ↦
      buddy_alloc head (paged_size size) m.heap >>= λ o. done (block_address o.0, with_head p o)
]

unfoldable pub free_memblock : ℕ → Memory → Outcome (ℕ × Memory)
free_memblock block m = if ltb block mem_start then done (minus_one, m) else elim m.pool [
  | unset ↦ fault
  | headless p ↦ fault
  | ready p head ↦ (let o = buddy_free head (block - mem_start) m.heap in done (o.0, with_head p o))
]

unfoldable pub init_process_heap : Process → ℕ × Process
init_process_heap p = (0, pinit_heap p)

unfoldable pub malloc : Process → ℕ → Outcome (ℕ × Process)
malloc p size = pmalloc p size

unfoldable pub calloc : Process → ℕ → ℕ → Bytes → Outcome (ℕ × Process × Bytes)
calloc p amount size m = pcalloc p amount size m

unfoldable pub free : Process → ℕ → ℕ × Process
free p mem = (0, pfree p mem)
