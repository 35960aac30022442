-- ===== src/Memory/Kmem.antt =====
-- Kernel/system/MemoryManagement/kmem.c: the kernel's own heap. Its state is the list of chunks that
-- `allocated` points to, and the memory in which `kcalloc` clears a block.
pub mod Heap
mod Tests
use so_realtime.Prelude.{
  ℕ, ◌+◌, ◌-◌, true, List, [], ◌∷◌, ◌==◌, if◌then◌else◌, Outcome, done, ◌>>=◌,
}
use so_realtime.KernelLib.{Bytes, memset}
use so_realtime.Memory.Chunks.{Chunk, header_size, product64, allocate, release}

abbrev pub available_memory : ℕ
available_memory = 0x300000

abbrev pub memory_start : ℕ
memory_start = 0x600000

abbrev pub memory_end : ℕ
memory_end = memory_start + available_memory - 1

-- The first chunk describes its own headers.
unfoldable pub init_kheap : List Chunk
init_kheap = record { start = memory_start; size = header_size; used = true } ∷ []

unfoldable pub kmalloc : ℕ → List Chunk → Outcome (ℕ × List Chunk)
kmalloc size heap = allocate memory_end size heap

unfoldable pub kfree : ℕ → List Chunk → List Chunk
kfree mem heap = release mem heap

-- A block for `amount` items, which is cleared if there is one.
unfoldable pub kcalloc : ℕ → ℕ → List Chunk → Bytes → Outcome (ℕ × List Chunk × Bytes)
unfolding kmalloc
kcalloc amount size heap m = kmalloc (product64 amount size) heap >>= λ r.
    if r.0 == 0 then done (r.0, r.1, m) else done (r.0, r.1, memset m r.0 0 (product64 amount size))
