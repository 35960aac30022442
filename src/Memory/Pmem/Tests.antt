-- ===== src/Memory/Pmem/Tests.antt =====
-- The heap of a process at concrete inputs.
use so_realtime.Prelude.{true, false, [], ◌∷◌, arith, Ensures}
use so_realtime.Process.{Process, ProcessState}
use so_realtime.Memory.Pmem.{pinit_heap, pmalloc}
use so_realtime.Memory.Pmem.Heap.{IsProcessHeap, Grown, pinit_heap-IsProcessHeap, pmalloc_lem}

-- A process with a heap of 10000 bytes, of which 500 are in use and 80 are free again.
abbrev shell : Process
shell = record {
  heap_start = 20000;
  stack_start = 0;
  heap_size = 10000;
  stack_size = 0;
  heap_node =
      record { start = 20000; size = 40; used = true }
      ∷ record { start = 20080; size = 80; used = false }
      ∷ record { start = 20200; size = 500; used = true }
      ∷ [];
  name = [];
  pid = 1;
  process_state = ProcessState.ready;
  signal_handler = 0;
  user_stack = 0;
  kernel_stack = 0;
  entry_point = 0;
}

shell-IsProcessHeap : IsProcessHeap shell
shell-IsProcessHeap = record { small = omega arith; chunks = omega arith }

pinit_heap-IsProcessHeap_example : IsProcessHeap (pinit_heap shell)
pinit_heap-IsProcessHeap_example = pinit_heap-IsProcessHeap shell (omega arith)

pmalloc_lem_example : Ensures (Grown shell 64) (pmalloc shell 64)
pmalloc_lem_example = pmalloc_lem shell 64 (omega arith) shell-IsProcessHeap
