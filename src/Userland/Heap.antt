-- ===== src/Userland/Heap.antt =====
-- Userland/CodeModule/lib/stdlib.c and syscalls.c: the calls for the heap of a process, over the table of
-- handlers: what the dispatcher does with the number of the call, and the handler behind it.
use so_realtime.Prelude.{ℕ, ◌%◌, ◌^◌, ◌≡◌, refl, none, some, Outcome, done, fault, ◌>>=◌}
use so_realtime.KernelLib.{Bytes}
use so_realtime.Process.{Process}
use so_realtime.Syscalls.Dispatch.{Call, number, init_syscalls, syscall_dispatcher}
use so_realtime.Userland.Calls.{user_number}
use so_realtime.Syscalls.Handlers.{sys_malloc, sys_calloc, sys_free}

unfoldable pub s_malloc : ℕ → Process → Outcome (ℕ × Process)
s_malloc size p = syscall_dispatcher (user_number Call.sys_malloc) >>= λ handler. elim handler [
  | none ↦ done (0, p)
  | some call ↦ sys_malloc (size % 2 ^ 32) p
]

unfoldable pub s_calloc : ℕ → ℕ → Process → Bytes → Outcome (ℕ × Process × Bytes)
s_calloc amount size p m = syscall_dispatcher (user_number Call.sys_calloc) >>= λ handler.
    elim handler [
      | none ↦ done (0, p, m)
      | some call ↦ sys_calloc (amount % 2 ^ 32) (size % 2 ^ 32) p m
    ]

unfoldable pub s_free : ℕ → Process → Outcome Process
s_free mem p = syscall_dispatcher (user_number Call.sys_free) >>= λ handler. elim handler [
  | none ↦ done p
  | some call ↦ done (sys_free mem p).1
]

unfoldable pub user_malloc : ℕ → Process → Outcome (ℕ × Process)
user_malloc size p = s_malloc size p

unfoldable pub user_calloc : ℕ → ℕ → Process → Bytes → Outcome (ℕ × Process × Bytes)
user_calloc amount size p m = s_calloc amount size p m

unfoldable pub user_free : ℕ → Process → Outcome Process
user_free ptr p = s_free ptr p

-- No handler stands behind the call: it jumps to a null pointer.
pub user_malloc-fault : (size : ℕ) (p : Process) → user_malloc size p ≡ fault
unfolding user_malloc s_malloc syscall_dispatcher user_number number init_syscalls
user_malloc-fault size p = refl
