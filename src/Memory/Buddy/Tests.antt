-- ===== src/Memory/Buddy/Tests.antt =====
-- The buddy system at concrete inputs.
use so_realtime.Prelude.{
  ◌*◌, ◌≡◌, ◌⊎◌, refl, true, [], ◌∷◌, arith, Ensures, Fails, minus_one, if◌then◌else◌, done,
}
use so_realtime.Memory.Chunks.{allocate, take_first_fit, last_chunk, chunk_behind}
use so_realtime.Memory.Chunks.Blocks.{is_used, erase_block}
use so_realtime.Memory.Kmem.{init_kheap, kmalloc}
use so_realtime.Memory.Buddy.{
  Node, free, alloc, split, Reply, carve, alloc_node, buddy_alloc, buddy_free,
}
use so_realtime.Memory.Buddy.Shape.{allocated}
use so_realtime.Memory.Buddy.Grant.{Denied, Granted}
use so_realtime.Memory.Buddy.Room.{HasRoom}
use so_realtime.Memory.Buddy.Runs.{Reaches, Packed, Reaches-Packed}
use so_realtime.Memory.Buddy.Contract.{IsTree, buddy_alloc_lem, buddy_free_lem, alloc_node_zero}

-- 16 bytes: a block of 4 in use, 4 free ones, and a block of 8 in use.
abbrev halves : Node
halves = split 1 0 16 (split 2 0 8 (alloc 4 0 4) (free 5 4 4)) (alloc 3 8 8)

halves-IsTree : IsTree 0 16 halves
halves-IsTree = record {
  covers = omega arith;
  coalesced = (λ a b. b, (λ a b. a, tt, tt), tt);
  small = omega arith;
}

heap-HasRoom : HasRoom (2 * 5) init_kheap
unfolding init_kheap
heap-HasRoom = record { valid = omega arith; room = omega arith }

whole-IsTree : IsTree 0 16 (free 1 0 16)
whole-IsTree = record { covers = omega arith; coalesced = tt; small = omega arith }

-- A request of 3 bytes of a free node of 8 takes its first half.
alloc_half :
    buddy_alloc (free 9 0 8) 3 init_kheap
    ≡ done (
      0,
      split 9 0 8 (alloc 6291536 0 4) (free 6291616 4 4),
      record { start = 6291456; size = 40; used = true }
          ∷ record { start = 6291536; size = 40; used = true }
          ∷ record { start = 6291616; size = 40; used = true }
          ∷ [],
    )
unfolding buddy_alloc alloc_node carve kmalloc allocate take_first_fit last_chunk chunk_behind
    init_kheap
alloc_half = refl

buddy_alloc_lem_example :
    Ensures
      (λ (o : Reply). IsTree 0 16 o.1 × (Denied 3 halves init_kheap o ⊎ Granted 0 16 3 halves o))
      (buddy_alloc halves 3 init_kheap)
buddy_alloc_lem_example =
    buddy_alloc_lem 5 0 16 3 halves init_kheap (omega arith) halves-IsTree (omega arith)
      (omega arith) heap-HasRoom

buddy_free_lem_example :
    let (rt, t', heap') = buddy_free halves 8 init_kheap in
    IsTree 0 16 t'
    × (rt ≡ (if is_used 8 (allocated halves) then 0 else minus_one))
    × (allocated t' ≡ erase_block 8 (allocated halves))
buddy_free_lem_example = buddy_free_lem 0 16 8 halves init_kheap halves-IsTree

alloc_node_zero_example : Fails (alloc_node 100 (free 1 0 16) 0 init_kheap)
alloc_node_zero_example = alloc_node_zero 100 1 0 16 init_kheap

small_HasRoom : HasRoom (2 * 4) init_kheap
unfolding init_kheap
small_HasRoom = record { valid = omega arith; room = omega arith }

Reaches-Packed_example : Packed 0 8 (allocated (split 9 0 8 (alloc 6291536 0 4) (free 6291616 4 4)))
Reaches-Packed_example =
    Reaches-Packed 4 8 (split 9 0 8 (alloc 6291536 0 4) (free 6291616 4 4)) _ (omega arith)
      (omega arith) (omega arith) (omega arith)
      (Reaches.request 3 (free 9 0 8) init_kheap _ (Reaches.start 9 init_kheap) (omega arith)
        small_HasRoom alloc_half)
