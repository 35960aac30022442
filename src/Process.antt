-- ===== src/Process.antt =====
-- Kernel/system/include/process.h: the process control block.
use so_realtime.Prelude.{ℕ, List}
use so_realtime.Memory.Chunks.{Chunk}

pub data ProcessState : Type 0 where
  running blocked ready ended : ProcessState

-- `process_t`. `heap_node` is the chain of chunks that it points to; the name is its bytes, and the
-- signal handler and the entry point are addresses.
pub record Process : Type 0 where
  pub heap_start : ℕ
  pub stack_start : ℕ
  pub heap_size : ℕ
  pub stack_size : ℕ
  pub heap_node : List Chunk
  pub name : List ℕ
  pub pid : ℕ
  pub process_state : ProcessState
  pub signal_handler : ℕ
  pub user_stack : ℕ
  pub kernel_stack : ℕ
  pub entry_point : ℕ
