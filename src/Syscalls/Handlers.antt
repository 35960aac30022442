-- ===== src/Syscalls/Handlers.antt =====
-- Kernel/system/syscalls.c: the handlers of the other system calls, each over the state that it works on.
use so_realtime.Prelude.{
  ℕ, ◌+◌, ◌%◌, ◌^◌, List, [], ◌==◌, if◌then◌else◌, codes, length, Outcome, done, ◌>>=◌,
}
use so_realtime.KernelLib.{Bytes}
use so_realtime.Process.{Process}
use so_realtime.Memory.Memlib.{
  Memory, get_memblock, free_memblock, init_process_heap, malloc, calloc, free,
}
use so_realtime.Keyboard.{Keyboard}
use so_realtime.Rtc.{Chip, date}
use so_realtime.Screen.{Screen, default_attr, clear_screen, clear_console, puts_at}
use so_realtime.Timer.{Timer, wait}
use so_realtime.Syscalls.{stdin, stddata, read_stdin, read_stddata}

-- The screen when the processor halts, which it does for good; hiding the cursor is left out.
unfoldable pub sys_exit : Screen → Screen
sys_exit s =
    let clear = clear_screen s in
    record clear {
      video =
          (puts_at (codes "It is now safe to turn off your computer") default_attr 0 0
            clear.video).1;
    }

unfoldable pub sys_clear : Screen → ℕ × Screen
sys_clear s = (0, clear_console s)

-- What a read puts into the buffer, its result, the keyboard, and the index into the data module.
abbrev pub Read : Type 0
Read = List ℕ × ℕ × Keyboard × ℕ

-- `sys_read`, with the key codes that arrive before each poll and the text of the data module.
unfoldable pub sys_read : ℕ → ℕ → List (List ℕ) → List ℕ → Keyboard → ℕ → Outcome Read
sys_read fd len arrivals text k index =
    let data_read = read_stddata len text index in
    if fd == stdin
    then (read_stdin len arrivals k >>= λ r. done (r.0, length r.0, r.1, index))
    else if fd == stddata
    then done (data_read.0, data_read.1, k, data_read.2)
    else done ([], 0, k, index)

-- `MEM_START_HEAP` at the start
abbrev pub mem_start_heap : ℕ
mem_start_heap = 0x600000

-- The result, and `MEM_START_HEAP` then.
unfoldable pub sys_sbrk : ℕ → ℕ → ℕ × ℕ
sys_sbrk increment top = ((top + increment) % 2 ^ 64, (top + increment) % 2 ^ 64)

unfoldable pub sys_memblock : ℕ → Memory → Outcome (ℕ × Memory)
sys_memblock size m = get_memblock size m

unfoldable pub sys_freeblock : ℕ → Memory → Outcome (ℕ × Memory)
sys_freeblock block_pointer m = free_memblock block_pointer m

-- The process of the calls below is the current one.
unfoldable pub sys_pinitheap : Process → ℕ × Process
sys_pinitheap p = init_process_heap p

unfoldable pub sys_malloc : ℕ → Process → Outcome (ℕ × Process)
sys_malloc size p = malloc p size

unfoldable pub sys_calloc : ℕ → ℕ → Process → Bytes → Outcome (ℕ × Process × Bytes)
sys_calloc amount size p m = calloc p amount size m

unfoldable pub sys_free : ℕ → Process → ℕ × Process
sys_free mem p = free p mem

unfoldable pub sys_date : {S : Type 0} → Chip S → S → List ℕ
sys_date chip s = date chip s

-- With the handlers that the timer calls meanwhile.
unfoldable pub sys_wait : ℕ → Timer → Outcome (ℕ × List ℕ × Timer)
sys_wait millis t = wait millis t >>= λ r. done (0, r.0, r.1)
