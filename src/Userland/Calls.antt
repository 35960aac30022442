-- ===== src/Userland/Calls.antt =====
-- Userland/CodeModule/lib/syscalls.c: the stubs that pass their arguments to the interrupt, as the handler that
-- it reaches. An `unsigned int` argument keeps its low 32 bits, and so does an `int` result. The calls for
-- the heap of a process stand with Heap; `write` stands with Stdio and `draw` with Graphics.
use so_realtime.Prelude.{
  ℕ, Bool, ◌%◌, ◌^◌, ◌≡◌, List, some, if◌then◌else◌, Outcome, done, fault, ◌>>=◌,
}
use so_realtime.KernelLib.{Bytes}
use so_realtime.Keyboard.{Keyboard}
use so_realtime.Memory.Memlib.{Memory}
use so_realtime.Rtc.{Chip}
use so_realtime.Screen.{Screen}
use so_realtime.Timer.{Timer}
use so_realtime.Graphics.{Ports, Display, sys_video}
use so_realtime.Syscalls.{sys_set_time, sys_set_date, sys_time}
use so_realtime.Syscalls.Dispatch.{
  Call, number, syscall_dispatcher, is_heap_call, syscall_dispatcher-number,
}
use so_realtime.Syscalls.Handlers.{
  Read, sys_exit, sys_clear, sys_read, sys_sbrk, sys_memblock, sys_freeblock, sys_date, sys_wait,
}

-- The numbers that the stubs pass to the interrupt: the `enum` of the user's header.
unfoldable pub user_number : Call → ℕ
user_number Call.sys_exit = 0
user_number Call.sys_clear = 1
user_number Call.sys_read = 2
user_number Call.sys_write = 3
user_number Call.sys_video = 4
user_number Call.sys_draw = 5
user_number Call.sys_sbrk = 6
user_number Call.sys_memblock = 7
user_number Call.sys_freeblock = 8
user_number Call.sys_pinitheap = 9
user_number Call.sys_malloc = 10
user_number Call.sys_free = 11
user_number Call.sys_calloc = 12
user_number Call.sys_time = 13
user_number Call.sys_date = 14
user_number Call.sys_set_time = 15
user_number Call.sys_set_date = 16
user_number Call.sys_wait = 17

unfoldable pub exit : Screen → Screen
exit s = sys_exit s

unfoldable pub clear : Screen → Screen
clear s = (sys_clear s).1

unfoldable pub read : ℕ → ℕ → List (List ℕ) → List ℕ → Keyboard → ℕ → Outcome Read
read fd size arrivals text k index = sys_read (fd % 2 ^ 32) (size % 2 ^ 32) arrivals text k index

unfoldable pub video : {S : Type 0} → Ports S → ℕ → ℕ → ℕ → Bool → S × Display → Bool × S × Display
video ports buffer w h enabled r = sys_video ports buffer (w % 2 ^ 32) (h % 2 ^ 32) enabled r

unfoldable pub sbrk : ℕ → ℕ → ℕ × ℕ
sbrk increment top = sys_sbrk (increment % 2 ^ 32) top

unfoldable pub memblock : ℕ → Memory → Outcome (ℕ × Memory)
memblock size m = sys_memblock (size % 2 ^ 32) m

unfoldable pub freeblock : ℕ → Memory → Outcome (ℕ × Memory)
freeblock block_start m = sys_freeblock block_start m >>= λ r. done (r.0 % 2 ^ 32, r.1)

unfoldable pub user_time : {S : Type 0} → Chip S → ℕ → S → Timer × Bytes → Timer × Bytes
user_time chip show_task s r = sys_time chip show_task s r

unfoldable pub user_date : {S : Type 0} → Chip S → S → List ℕ
user_date chip s = sys_date chip s

unfoldable pub user_set_time : {S : Type 0} → Chip S → ℕ → ℕ → ℕ → S → ℕ × S
user_set_time chip hour minutes seconds s =
    sys_set_time chip (hour % 2 ^ 32) (minutes % 2 ^ 32) (seconds % 2 ^ 32) s

unfoldable pub user_set_date : {S : Type 0} → Chip S → ℕ → ℕ → ℕ → S → ℕ × S
user_set_date chip day month year s =
    sys_set_date chip (day % 2 ^ 32) (month % 2 ^ 32) (year % 2 ^ 32) s

unfoldable pub user_wait : ℕ → Timer → Outcome (ℕ × List ℕ × Timer)
user_wait millis t = sys_wait millis t

-- A stub's number reaches the handler of that name in the kernel's table, but for the calls for the heap of
-- a process, which jump through a null pointer.
syscall_dispatcher-user_number :
    (call : Call)
    → syscall_dispatcher (user_number call)
      ≡ (if is_heap_call call then fault else done (some call))
unfolding user_number number
syscall_dispatcher-user_number Call.sys_exit = syscall_dispatcher-number Call.sys_exit
syscall_dispatcher-user_number Call.sys_clear = syscall_dispatcher-number Call.sys_clear
syscall_dispatcher-user_number Call.sys_read = syscall_dispatcher-number Call.sys_read
syscall_dispatcher-user_number Call.sys_write = syscall_dispatcher-number Call.sys_write
syscall_dispatcher-user_number Call.sys_video = syscall_dispatcher-number Call.sys_video
syscall_dispatcher-user_number Call.sys_draw = syscall_dispatcher-number Call.sys_draw
syscall_dispatcher-user_number Call.sys_sbrk = syscall_dispatcher-number Call.sys_sbrk
syscall_dispatcher-user_number Call.sys_memblock = syscall_dispatcher-number Call.sys_memblock
syscall_dispatcher-user_number Call.sys_freeblock = syscall_dispatcher-number Call.sys_freeblock
syscall_dispatcher-user_number Call.sys_pinitheap = syscall_dispatcher-number Call.sys_pinitheap
syscall_dispatcher-user_number Call.sys_malloc = syscall_dispatcher-number Call.sys_malloc
syscall_dispatcher-user_number Call.sys_free = syscall_dispatcher-number Call.sys_free
syscall_dispatcher-user_number Call.sys_calloc = syscall_dispatcher-number Call.sys_calloc
syscall_dispatcher-user_number Call.sys_time = syscall_dispatcher-number Call.sys_time
syscall_dispatcher-user_number Call.sys_date = syscall_dispatcher-number Call.sys_date
syscall_dispatcher-user_number Call.sys_set_time = syscall_dispatcher-number Call.sys_set_time
syscall_dispatcher-user_number Call.sys_set_date = syscall_dispatcher-number Call.sys_set_date
syscall_dispatcher-user_number Call.sys_wait = syscall_dispatcher-number Call.sys_wait
