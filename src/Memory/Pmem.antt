-- ===== src/Memory/Pmem.antt =====
-- Kernel/system/MemoryManagement/pmem.c: the heap of a process, kept in the process's record.
pub mod Heap
mod Tests
use so_realtime.Prelude.{ℕ, true, [], ◌∷◌, ◌==◌, if◌then◌else◌, add64, Outcome, done, ◌>>=◌}
use so_realtime.KernelLib.{Bytes, memset}
use so_realtime.Process.{Process}
use so_realtime.Memory.Chunks.{header_size, product64, allocate, release}

-- `(uint64_t)process->heap_start + process->heap_size`
abbrev pub heap_end : Process → ℕ
heap_end p = add64 p.heap_start p.heap_size

unfoldable pub pinit_heap : Process → Process
pinit_heap p = record p {
  heap_node = record { start = p.heap_start; size = header_size; used = true } ∷ [];
}

unfoldable pub pmalloc : Process → ℕ → Outcome (ℕ × Process)
pmalloc p size =
    allocate (heap_end p) size p.heap_node >>= λ r. done (r.0, record p { heap_node = r.1 })

unfoldable pub pcalloc : Process → ℕ → ℕ → Bytes → Outcome (ℕ × Process × Bytes)
unfolding pmalloc
pcalloc p amount size m = pmalloc p (product64 amount size) >>= λ r.
    if r.0 == 0 then done (r.0, r.1, m) else done (r.0, r.1, memset m r.0 0 (product64 amount size))

unfoldable pub pfree : Process → ℕ → Process
pfree p mem = record p { heap_node = release mem p.heap_node }
