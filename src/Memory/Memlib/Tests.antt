-- ===== src/Memory/Memlib/Tests.antt =====
-- Memory blocks at concrete inputs.
use so_realtime.Prelude.{◌*◌, ◌≡◌, refl, arith, Ensures}
use so_realtime.Memory.Kmem.{init_kheap}
use so_realtime.Memory.Buddy.{Node, free}
use so_realtime.Memory.Buddy.Contract.{IsTree}
use so_realtime.Memory.Buddy.Room.{HasRoom}
use so_realtime.Memory.Memlib.{paged_size, get_memblock}
use so_realtime.Memory.Memlib.Pages.{
  get_memblock_lem, free_memblock-get_memblock, with_tree, BlockGiven, BlockReturned,
}

paged_size_5000 : paged_size 5000 ≡ 8192
unfolding paged_size
paged_size_5000 = refl

-- A pool of 64 kB that is free.
abbrev whole : Node
whole = free 1 0 65536

whole-IsTree : IsTree 0 65536 whole
whole-IsTree = record { covers = omega arith; coalesced = tt; small = omega arith }

heap-HasRoom : HasRoom (2 * 17) init_kheap
unfolding init_kheap
heap-HasRoom = record { valid = omega arith; room = omega arith }

get_memblock_lem_example :
    Ensures (BlockGiven 5000 65536) (get_memblock 5000 (with_tree 9 whole init_kheap))
get_memblock_lem_example =
    get_memblock_lem 17 9 65536 5000 whole init_kheap (omega arith) (omega arith) whole-IsTree
      (omega arith) (omega arith) (omega arith) heap-HasRoom

free_memblock-get_memblock_example :
    Ensures (BlockReturned 9 whole) (get_memblock 5000 (with_tree 9 whole init_kheap))
free_memblock-get_memblock_example =
    free_memblock-get_memblock 17 9 65536 5000 whole init_kheap (omega arith) (omega arith)
      whole-IsTree (omega arith) (omega arith) (omega arith) heap-HasRoom
