-- ===== src/Syscalls/Dispatch.antt =====
-- Kernel/system/syscalls.c: the table of handlers, and which handler a system call reaches.
use so_realtime.Prelude.{
  ℕ, ◌≡◌, refl, Bool, true, false, Option, none, some, List, set, get_or, replicate, ltb, Outcome,
  done, fault, if◌then◌else◌,
}

-- The handlers of the system calls, in the order of the calls' numbers.
pub data Call : Type 0 where
  sys_exit sys_clear sys_read sys_write sys_video sys_draw sys_sbrk sys_memblock : Call
  sys_freeblock sys_pinitheap sys_malloc sys_free sys_calloc sys_time sys_date : Call
  sys_set_time sys_set_date sys_wait : Call

-- `SYS_EXIT` and those after it.
unfoldable pub number : Call → ℕ
number Call.sys_exit = 0
number Call.sys_clear = 1
number Call.sys_read = 2
number Call.sys_write = 3
number Call.sys_video = 4
number Call.sys_draw = 5
number Call.sys_sbrk = 6
number Call.sys_memblock = 7
number Call.sys_freeblock = 8
number Call.sys_pinitheap = 9
number Call.sys_malloc = 10
number Call.sys_free = 11
number Call.sys_calloc = 12
number Call.sys_time = 13
number Call.sys_date = 14
number Call.sys_set_time = 15
number Call.sys_set_date = 16
number Call.sys_wait = 17

abbrev pub install : Call → List (Option Call) → List (Option Call)
install call table = set table (number call) (some call)

-- The array of handlers that `init_syscalls` leaves.
unfoldable pub init_syscalls : List (Option Call)
init_syscalls =
    let first = install Call.sys_video (
      install Call.sys_write (
        install Call.sys_read
          (install Call.sys_clear (install Call.sys_exit (replicate 18 none))))) in
    let second =
      install Call.sys_freeblock
        (install Call.sys_memblock (install Call.sys_sbrk (install Call.sys_draw first))) in
    install Call.sys_wait (
      install Call.sys_set_date
        (install Call.sys_set_time (install Call.sys_date (install Call.sys_time second))))

-- `syscallDispatcher`: the handler that is called, or `none` where it answers 0 at once. An entry that is
-- not set is a null pointer.
unfoldable pub syscall_dispatcher : ℕ → Outcome (Option Call)
syscall_dispatcher id =
    if ltb 17 id
    then done none
    else elim (get_or init_syscalls id none) [ none ↦ fault | some call ↦ done (some call) ]

-- The calls for the heap of a process.
pub is_heap_call : Call → Bool
is_heap_call Call.sys_pinitheap = true
is_heap_call Call.sys_malloc = true
is_heap_call Call.sys_free = true
is_heap_call Call.sys_calloc = true
is_heap_call call = false

-- The table holds the handler of each system call at its number, but for the calls for the heap of a
-- process.
pub init_syscalls-number :
    (call : Call)
    → get_or init_syscalls (number call) none ≡ (if is_heap_call call then none else some call)
unfolding number init_syscalls is_heap_call
init_syscalls-number Call.sys_exit = refl
init_syscalls-number Call.sys_clear = refl
init_syscalls-number Call.sys_read = refl
init_syscalls-number Call.sys_write = refl
init_syscalls-number Call.sys_video = refl
init_syscalls-number Call.sys_draw = refl
init_syscalls-number Call.sys_sbrk = refl
init_syscalls-number Call.sys_memblock = refl
init_syscalls-number Call.sys_freeblock = refl
init_syscalls-number Call.sys_pinitheap = refl
init_syscalls-number Call.sys_malloc = refl
init_syscalls-number Call.sys_free = refl
init_syscalls-number Call.sys_calloc = refl
init_syscalls-number Call.sys_time = refl
init_syscalls-number Call.sys_date = refl
init_syscalls-number Call.sys_set_time = refl
init_syscalls-number Call.sys_set_date = refl
init_syscalls-number Call.sys_wait = refl

-- The number of each system call reaches the handler of that name, but for the four calls for the heap of
-- a process, whose entries are never set: they jump through a null pointer.
pub syscall_dispatcher-number :
    (call : Call)
    → syscall_dispatcher (number call) ≡ (if is_heap_call call then fault else done (some call))
unfolding syscall_dispatcher number init_syscalls is_heap_call
syscall_dispatcher-number Call.sys_exit = refl
syscall_dispatcher-number Call.sys_clear = refl
syscall_dispatcher-number Call.sys_read = refl
syscall_dispatcher-number Call.sys_write = refl
syscall_dispatcher-number Call.sys_video = refl
syscall_dispatcher-number Call.sys_draw = refl
syscall_dispatcher-number Call.sys_sbrk = refl
syscall_dispatcher-number Call.sys_memblock = refl
syscall_dispatcher-number Call.sys_freeblock = refl
syscall_dispatcher-number Call.sys_pinitheap = refl
syscall_dispatcher-number Call.sys_malloc = refl
syscall_dispatcher-number Call.sys_free = refl
syscall_dispatcher-number Call.sys_calloc = refl
syscall_dispatcher-number Call.sys_time = refl
syscall_dispatcher-number Call.sys_date = refl
syscall_dispatcher-number Call.sys_set_time = refl
syscall_dispatcher-number Call.sys_set_date = refl
syscall_dispatcher-number Call.sys_wait = refl
