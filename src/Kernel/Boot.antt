-- ===== src/Kernel/Boot.antt =====
-- What the start of the kernel sets up.
use so_realtime.Prelude.{
  ℕ, ◌+◌, ◌-◌, ◌*◌, ◌^◌, ◌<◌, ◌≡◌, refl, List, none, some, if◌then◌else◌, replicate, length, leb,
  ltb, true, ◌&&◌, get_or, arith, codes, Ensures, Ensures-bind,
}
use so_realtime.Memory.Chunks.{allocate, take_first_fit, last_chunk, chunk_behind}
use so_realtime.Memory.Memlib.{Memory, init_mem, paged_size}
use so_realtime.Memory.Kmem.{init_kheap, kmalloc}
use so_realtime.Memory.Buddy.{ready, free, buddy_init}
use so_realtime.Screen.{Screen, clear_screen, puts_at}
use so_realtime.Rtc.Corner.{puts_from-cell}
use so_realtime.Interrupts.{Idt}
use so_realtime.Interrupts.Table.{IsGate, init_idt_lem}
use so_realtime.Syscalls.Dispatch.{Call, number, is_heap_call, init_syscalls-number}
use so_realtime.Shared.{init_shared, max_blocks}
use so_realtime.Kernel.{System, main}

-- The pool is one FREE node.
abbrev pub IsFresh : ℕ → Memory → Type 0
IsFresh size m = (p : ℕ) × (node : ℕ) × (m.pool ≡ ready p (free node 0 size))

init_mem-boot : Ensures (λ r. (r.0 ≡ 0) × IsFresh 163840 r.1) (init_mem (1024 * 4 * 40))
unfolding init_mem paged_size init_kheap buddy_init kmalloc allocate take_first_fit last_chunk
    chunk_behind
init_mem-boot = (refl, (_, _, refl))

-- The first cells show the text.
abbrev pub Shows : List ℕ → Screen → ℕ → Type 0
Shows text s k = s.video (k * 2) ≡ get_or text k 0

module _ (irq00 irq01 irq80 k : ℕ) where
  abbrev pub Booted : System → Type 0
  Booted b =
      IsGate irq00 (b.idt 32)
      × IsGate irq01 (b.idt 33)
      × IsGate irq80 (b.idt 128)
      × ((call : Call)
          → get_or b.syscalls (number call) none ≡ (if is_heap_call call then none else some call))
      × (b.shared.current ≡ 1)
      × (b.shared.mems ≡ replicate max_blocks none)
      × IsFresh 163840 b.shared.memory
      × Shows (codes "Arqui OS") b.screen k

  title :
      (s : Screen)
      → k < 8
      → Shows
          (codes "Arqui OS")
          (record s { video = (puts_at (codes "Arqui OS") 2 0 0 s.video).1 })
          k
  unfolding puts_at
  title s h =
      let here : (leb 0 k && ltb k (0 + length (codes "Arqui OS"))) ≡ true = ground arith in
      let place : k - 0 ≡ k = omega arith in
      rw (puts_from-cell (codes "Arqui OS") 2 0 k s.video (omega arith) (omega arith), here, place)
        refl

  -- `main` sets the kernel up: for entry points that are words of 64 bits, the gates of the timer, the
  -- keyboard and the system calls lead to them, the handler of each system call stands at its number in
  -- the table of handlers, but the entries of the four calls for the heap of a process are not set, the
  -- table of shared blocks is empty, the pool is one FREE node of 160 KiB, and the first eight cells of
  -- the screen show the name of the system.
  pub main_lem :
      (s : Screen) (idt : Idt)
      → irq00 < 2 ^ 64
      → irq01 < 2 ^ 64
      → irq80 < 2 ^ 64
      → k < 8
      → Ensures Booted (main irq00 irq01 irq80 s idt)
  unfolding main init_shared
  main_lem s idt a b c h =
      let (timer, keyboard, calls, _) =
        init_idt_lem irq00 irq01 irq80 0 idt a b c (λ e. absurd (omega arith))
          (λ e. absurd (omega arith)) (λ e. absurd (omega arith)) in
      Ensures-bind (λ r. (r.0 ≡ 0) × IsFresh 163840 r.1) Booted (init_mem (1024 * 4 * 40)) _
        (λ r d.
          (timer, keyboard, calls, init_syscalls-number, refl, refl, d.1, title (clear_screen s) h))
        init_mem-boot
