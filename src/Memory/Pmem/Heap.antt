-- ===== src/Memory/Pmem/Heap.antt =====
-- The heap of a process against its blocks in use.
use so_realtime.Prelude.{ℕ, ◌+◌, ◌^◌, ◌<◌, ◌≡◌, true, List, arith, Ensures, Ensures-bind, refl}
use so_realtime.Process.{Process}
use so_realtime.Memory.Chunks.{Chunk, allocate, header_size}
use so_realtime.Memory.Chunks.Heap.{IsHeap, Placed, allocate_lem, release_lem}
use so_realtime.Memory.Chunks.Blocks.{used_blocks, erase_block, is_used}
use so_realtime.Memory.Pmem.{heap_end, pinit_heap, pmalloc, pfree}

-- The end that the last block does not pass. `pmalloc` leaves a header out of its bound.
abbrev pub process_top : Process → ℕ
process_top p = p.heap_start + p.heap_size + header_size

pub record IsProcessHeap (p : Process) : Type 0 where
  pub small : process_top p < 2 ^ 63
  pub chunks : IsHeap (process_top p) p.heap_start p.heap_node

-- The heap that `pinit_heap` sets up is well formed, whatever the process's heap was before.
pub pinit_heap-IsProcessHeap : (p : Process) → process_top p < 2 ^ 63 → IsProcessHeap (pinit_heap p)
unfolding pinit_heap
pinit_heap-IsProcessHeap p h = ground arith

abbrev pub Grown : Process → ℕ → ℕ × Process → Type 0
Grown p size r =
    (r.1.heap_start ≡ p.heap_start)
    × (r.1.heap_size ≡ p.heap_size)
    × IsProcessHeap r.1
    × Placed (heap_end p) p.heap_start size p.heap_node (r.0, r.1.heap_node)

-- On a well-formed heap and for a size below 2^63, `pmalloc` keeps the heap well formed and its
-- bounds, and either answers NULL and changes nothing, where no unused chunk and no room behind the
-- last chunk holds the size, or adds to the blocks in use one of that size which shares no byte with
-- the others.
pub pmalloc_lem :
    (p : Process) (size : ℕ)
    → size < 2 ^ 63
    → IsProcessHeap p
    → Ensures (Grown p size) (pmalloc p size)
unfolding pmalloc
pmalloc_lem p size h v =
    Ensures-bind
      (λ (r : ℕ × List Chunk).
        IsHeap (process_top p) p.heap_start r.1
        × Placed (heap_end p) p.heap_start size p.heap_node r)
      (Grown p size) (allocate (heap_end p) size p.heap_node) _
      (λ r k. (refl, refl, record { small = v.small; chunks = k.0 }, k.1))
      (allocate_lem (process_top p) p.heap_start (heap_end p) (omega arith) v.small size p.heap_node
        h v.chunks)

-- On a well-formed heap, `pfree` of the start of a block in use keeps the heap well formed and takes
-- that block, and no other, out of the blocks in use.
pub pfree_lem :
    (p : Process) (mem : ℕ)
    → IsProcessHeap p
    → is_used mem (used_blocks p.heap_node) ≡ true
    → IsProcessHeap (pfree p mem)
      × (used_blocks (pfree p mem).heap_node ≡ erase_block mem (used_blocks p.heap_node))
unfolding pfree
pfree_lem p mem v u =
    let k =
      release_lem (process_top p) p.heap_start (heap_end p) (omega arith) v.small mem p.heap_node
        v.chunks u in
    (record { small = v.small; chunks = k.0 }, k.1)
