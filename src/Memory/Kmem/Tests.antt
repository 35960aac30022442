-- ===== src/Memory/Kmem/Tests.antt =====
-- The kernel's heap at concrete inputs.
use so_realtime.Prelude.{ℕ, ◌≡◌, ◌⊎◌, refl, true, false, List, [], ◌∷◌, arith, done, Ensures}
use so_realtime.Memory.Chunks.{Chunk, take_first_fit, allocate, release}
use so_realtime.Memory.Chunks.{near, distance, release_here, release_into, release_after}
use so_realtime.Memory.Chunks.Blocks.{used_blocks, erase_block, is_used}
use so_realtime.Memory.Chunks.Heap.{Placed}
use so_realtime.Memory.Kmem.{memory_start, memory_end, kmalloc, kfree}
use so_realtime.Memory.Kmem.Heap.{IsKernelHeap, kmalloc_lem, kfree_lem, kfree-kmalloc}

-- The chunk of the heap's own headers, then 100 bytes in use, 60 bytes unused and 8 bytes in use.
abbrev mixed : List Chunk
mixed =
    record { start = 6291456; size = 40; used = true }
    ∷ record { start = 6291536; size = 100; used = true }
    ∷ record { start = 6291676; size = 60; used = false }
    ∷ record { start = 6291776; size = 8; used = true }
    ∷ []

mixed-IsKernelHeap : IsKernelHeap mixed
mixed-IsKernelHeap = omega arith

-- The first fit is cut to the size, and what was cut off is not kept.
kmalloc_first_fit :
    kmalloc 50 mixed
    ≡ done (
      6291676,
      record { start = 6291456; size = 40; used = true }
          ∷ record { start = 6291536; size = 100; used = true }
          ∷ record { start = 6291676; size = 50; used = true }
          ∷ record { start = 6291776; size = 8; used = true }
          ∷ [],
    )
unfolding kmalloc allocate take_first_fit
kmalloc_first_fit = refl

-- An unused chunk in front takes in the chunk that is freed.
kfree_joins :
    kfree 6291776 mixed
    ≡ record { start = 6291456; size = 40; used = true }
      ∷ record { start = 6291536; size = 100; used = true }
      ∷ record { start = 6291676; size = 68; used = false }
      ∷ []
unfolding kfree release release_after release_here release_into near distance
kfree_joins = refl

kmalloc_lem_example :
    Ensures
      (λ (r : ℕ × List Chunk). IsKernelHeap r.1 × Placed memory_end memory_start 50 mixed r)
      (kmalloc 50 mixed)
kmalloc_lem_example = kmalloc_lem 50 mixed (omega arith) mixed-IsKernelHeap

kfree_lem_example :
    IsKernelHeap (kfree 6291776 mixed)
    × (used_blocks (kfree 6291776 mixed) ≡ erase_block 6291776 (used_blocks mixed))
unfolding used_blocks is_used
kfree_lem_example = kfree_lem 6291776 mixed mixed-IsKernelHeap refl

kfree-kmalloc_example :
    Ensures
      (λ (r : ℕ × List Chunk). (r.0 ≡ 0) ⊎ (used_blocks (kfree r.0 r.1) ≡ used_blocks mixed))
      (kmalloc 300 mixed)
kfree-kmalloc_example = kfree-kmalloc 300 mixed (omega arith) mixed-IsKernelHeap
