-- ===== src/Scheduler.antt =====
-- Kernel/system/scheduling/scheduling.c: the ring of processes and the switches between them. The file is
-- not part of the build, and it declares some variables with the wrong type; what follows is the code that
-- its functions spell out. `addProcess` is left out: the node that it links is never set.
pub mod Ring
mod Tests
use so_realtime.Prelude.{
  ℕ, zero, suc, ◌+◌, ◌-◌, ◌%◌, ◌^◌, Bool, true, false, ◌==◌, if◌then◌else◌, sub64, Outcome, done,
  fault, timeout, ◌>>=◌,
}
use so_realtime.Process.{Process, ProcessState, running, blocked, ready, ended}

-- `ProcessNode`, with the process that it points to.
pub record ProcessNode : Type 0 where
  pub process : Process
  pub next : ℕ

-- The static variables, and the nodes by their addresses.
pub record Scheduler : Type 0 where
  pub last_pid_given : ℕ
  pub current_process_node : ℕ
  pub nodes : ℕ → ProcessNode

-- `processState == READY`
unfoldable pub is_ready : ProcessState → Bool
is_ready ready = true
is_ready running = false
is_ready blocked = false
is_ready ended = false

-- The node at the address gets this stack.
abbrev pub set_user_stack : ℕ → ℕ → (ℕ → ProcessNode) → ℕ → ProcessNode
set_user_stack address esp nodes q =
    if q == address
    then record (nodes q) { process = record (nodes q).process { user_stack = esp } }
    else nodes q

-- It answers the kernel's stack of the current process.
unfoldable pub switch_user_to_kernel : ℕ → Scheduler → Outcome (ℕ × Scheduler)
switch_user_to_kernel esp s =
    let here = s.current_process_node in
    if here == 0
    then fault
    else done
        ((s.nodes here).process.kernel_stack, record s { nodes = set_user_stack here esp s.nodes })

-- The loop of `getNextProcess` at a node, on fuel: the user's stack of the first process that is ready.
unfoldable pub ready_from : ℕ → (ℕ → ProcessNode) → ℕ → Outcome ℕ
ready_from zero nodes at = timeout
ready_from (suc fuel) nodes at =
    let rest = ready_from fuel nodes (nodes at).next in
    if at == 0
    then fault
    else if is_ready (nodes at).process.process_state
    then done (nodes at).process.user_stack
    else rest

unfoldable pub get_next_process : ℕ → Scheduler → Outcome ℕ
get_next_process fuel s =
    if s.current_process_node == 0
    then fault
    else ready_from fuel s.nodes (s.nodes s.current_process_node).next

unfoldable pub switch_kernel_to_user : ℕ → Scheduler → Outcome ℕ
switch_kernel_to_user fuel s = get_next_process fuel s

-- `++last_pid_given`, an `int`
unfoldable pub get_new_pid : Scheduler → ℕ × Scheduler
get_new_pid s =
    let pid = (s.last_pid_given + 1) % 2 ^ 32 in (pid, record s { last_pid_given = pid })

-- `struct StackFrame`
pub record StackFrame : Type 0 where
  pub gs : ℕ
  pub fs : ℕ
  pub r15 : ℕ
  pub r14 : ℕ
  pub r13 : ℕ
  pub r12 : ℕ
  pub r11 : ℕ
  pub r10 : ℕ
  pub r9 : ℕ
  pub r8 : ℕ
  pub rsi : ℕ
  pub rdi : ℕ
  pub rbp : ℕ
  pub rdx : ℕ
  pub rcx : ℕ
  pub rbx : ℕ
  pub rax : ℕ
  pub rip : ℕ
  pub cs : ℕ
  pub eflags : ℕ
  pub rsp : ℕ
  pub ss : ℕ
  pub base : ℕ

-- Its 23 fields of 8 bytes.
abbrev pub frame_size : ℕ
frame_size = 184

-- The address of the frame, just below the stack's start, and the frame.
unfoldable pub build_stack_frame : ℕ → ℕ → ℕ × StackFrame
build_stack_frame entry_point user_stack =
    let frame = sub64 user_stack frame_size in
    (
      frame,
      record {
        gs = 0x001;
        fs = 0x002;
        r15 = 0x003;
        r14 = 0x004;
        r13 = 0x005;
        r12 = 0x006;
        r11 = 0x007;
        r10 = 0x008;
        r9 = 0x009;
        r8 = 0x00A;
        rsi = 0x00B;
        rdi = 0x00C;
        rbp = 0x00D;
        rdx = 0x00E;
        rcx = 0x00F;
        rbx = 0x010;
        rax = 0x011;
        rip = entry_point;
        cs = 0x008;
        eflags = 0x202;
        rsp = (frame + 176) % 2 ^ 64;
        ss = 0x000;
        base = 0x000;
      },
    )
