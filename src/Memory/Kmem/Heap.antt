-- ===== src/Memory/Kmem/Heap.antt =====
-- The kernel's heap against its blocks in use.
use so_realtime.Prelude.{
  ℕ, ◌+◌, ◌^◌, ◌≤◌, ◌<◌, ◌≡◌, ◌⊎◌, ◌&&◌, true, List, leb, ltb, if◌then◌else◌, arith, Ensures,
  Ensures-bind, ◌==◌, Bool-cases, inl, inr, none, some,
}
use so_realtime.KernelLib.{Bytes}
use so_realtime.KernelLib.Laws.{memset_lem}
use so_realtime.Memory.Chunks.{Chunk, product64, header_size, take_first_fit, last_chunk}
use so_realtime.Memory.Chunks.Heap.{IsHeap, Placed, allocate_lem, release_lem, release-allocate}
use so_realtime.Memory.Chunks.Limits.{allocate_wrap}
use so_realtime.Memory.Chunks.Blocks.{used_blocks, erase_block, is_used}
use so_realtime.Memory.Kmem.{memory_start, memory_end, init_kheap, kmalloc, kfree, kcalloc}

-- The headers and blocks stand one behind the other from `MEMORY_START` on. The last block may pass
-- `MEMORY_END` by a header, since `kmalloc` does not count that in its bound.
abbrev pub kernel_top : ℕ
kernel_top = memory_end + header_size

abbrev pub IsKernelHeap : List Chunk → Type 0
IsKernelHeap heap = IsHeap kernel_top memory_start heap

-- The heap that `init_kheap` sets up is well formed.
pub init_kheap-IsKernelHeap : IsKernelHeap init_kheap
unfolding init_kheap
init_kheap-IsKernelHeap = ground arith

-- On a well-formed heap and for a size below 2^63, `kmalloc` keeps the heap well formed, and either
-- answers NULL and changes nothing, where no unused chunk and no room behind the last chunk holds the
-- size, or adds to the blocks in use one of that size which shares no byte with the others.
pub kmalloc_lem :
    (size : ℕ) (heap : List Chunk)
    → size < 2 ^ 63
    → IsKernelHeap heap
    → Ensures
        (λ (r : ℕ × List Chunk). IsKernelHeap r.1 × Placed memory_end memory_start size heap r)
        (kmalloc size heap)
unfolding kmalloc
kmalloc_lem size heap h v =
    allocate_lem kernel_top memory_start memory_end (omega arith) (omega arith) size heap h v

-- On a well-formed heap, `kfree` of the start of a block in use keeps the heap well formed and takes
-- that block, and no other, out of the blocks in use.
pub kfree_lem :
    (mem : ℕ) (heap : List Chunk)
    → IsKernelHeap heap
    → is_used mem (used_blocks heap) ≡ true
    → IsKernelHeap (kfree mem heap)
      × (used_blocks (kfree mem heap) ≡ erase_block mem (used_blocks heap))
unfolding kfree
kfree_lem mem heap v u =
    release_lem kernel_top memory_start memory_end (omega arith) (omega arith) mem heap v u

-- On a well-formed heap and for a size below 2^63, to free what `kmalloc` returned, if not NULL,
-- restores the blocks in use.
pub kfree-kmalloc :
    (size : ℕ) (heap : List Chunk)
    → size < 2 ^ 63
    → IsKernelHeap heap
    → Ensures
        (λ (r : ℕ × List Chunk). (r.0 ≡ 0) ⊎ (used_blocks (kfree r.0 r.1) ≡ used_blocks heap))
        (kmalloc size heap)
unfolding kmalloc kfree
kfree-kmalloc size heap h v =
    release-allocate kernel_top memory_start memory_end (omega arith) (omega arith) size heap h v

-- Where no unused chunk holds the size, and the sum of it and the end of the last chunk wraps to a
-- number that does not pass `MEMORY_END`, `kmalloc` returns the address behind the last chunk's end
-- and a header.
pub kmalloc_wrap :
    (size : ℕ) (heap : List Chunk) (p : Chunk)
    → take_first_fit size heap ≡ none
    → last_chunk heap ≡ some p
    → size < 2 ^ 64
    → p.start + p.size + header_size < 2 ^ 64
    → 2 ^ 64 ≤ p.start + p.size + size
    → p.start + p.size + size ≤ 2 ^ 64 + memory_end
    → Ensures (λ (r : ℕ × List Chunk). r.0 ≡ p.start + p.size + header_size) (kmalloc size heap)
unfolding kmalloc
kmalloc_wrap size heap p e l h t k m =
    allocate_wrap memory_end size heap p e l (omega arith) h k m t

-- What `kcalloc` leaves in memory: zeros in the block, and all else as it was.
abbrev pub Cleared : ℕ → Bytes → ℕ × List Chunk × Bytes → Type 0
Cleared n m r =
    (q : ℕ) → r.2 q ≡ (if r.0 == 0 then m q else if leb r.0 q && ltb q (r.0 + n) then 0 else m q)

-- On a well-formed heap, and where the product of the arguments as the code computes it is below
-- 2^63, `kcalloc` allocates as `kmalloc` does, and sets exactly the bytes of the block to zero.
pub kcalloc_lem :
    (amount size : ℕ) (heap : List Chunk) (m : Bytes)
    → product64 amount size < 2 ^ 63
    → IsKernelHeap heap
    → Ensures
        (λ (r : ℕ × List Chunk × Bytes).
          IsKernelHeap r.1
          × Placed memory_end memory_start (product64 amount size) heap (r.0, r.1)
          × Cleared (product64 amount size) m r)
        (kcalloc amount size heap m)
unfolding kcalloc
kcalloc_lem amount size heap m h v =
    Ensures-bind
      (λ (r : ℕ × List Chunk).
        IsKernelHeap r.1 × Placed memory_end memory_start (product64 amount size) heap r)
      _ (kmalloc (product64 amount size) heap) _
      (λ r k. elim (Bool-cases (r.0 == 0)) [
        | inl null ↦ rw null (k.0, k.1, λ q. rw null)
        | inr block ↦
            rw block (k.0, k.1, λ q. rw block (memset_lem m r.0 0 (product64 amount size) q))
      ])
      (kmalloc_lem (product64 amount size) heap h v)
