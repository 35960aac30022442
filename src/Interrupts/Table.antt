-- ===== src/Interrupts/Table.antt =====
-- Where the entries of the table lead, and what the interrupts do.
use so_realtime.Prelude.{
  ℕ, ◌+◌, ◌*◌, ◌%◌, ◌^◌, ◌<◌, ◌≡◌, ◌≢◌, refl, false, List, All, ◌==◌, arith, Ensures, Ensures-bind,
}
use so_realtime.Keyboard.{Keyboard}
use so_realtime.Timer.{Task, Timer, timer_handler}
use so_realtime.Timer.Table.{Holds}
use so_realtime.Timer.Handler.{due_handlers, kept, IsPeriodic, timer_handler_lem}
use so_realtime.Interrupts.{
  Descriptor, Idt, set_idt_entry, init_idt, routines, pit_irq, Served, irq_dispatcher,
}

-- The address that the processor goes to.
abbrev pub offset : Descriptor → ℕ
offset d = d.offset_l + d.offset_m * 2 ^ 16 + d.offset_h * 2 ^ 32

-- An interrupt gate in ring 0 of the kernel's code segment, which is present.
abbrev pub IsGate : ℕ → Descriptor → Type 0
IsGate address d =
    (offset d ≡ address) × (d.selector ≡ 8) × (d.access ≡ 0x8e) × (d.zero1 ≡ 0) × (d.zero2 ≡ 0)

-- For entry points that are words of 64 bits, `init_idt` makes the entries 32, 33 and 128 of the table
-- gates to those of the timer, the keyboard and the system calls, and leaves any other entry.
pub init_idt_lem :
    (irq00 irq01 irq80 i : ℕ) (idt : Idt)
    → irq00 < 2 ^ 64
    → irq01 < 2 ^ 64
    → irq80 < 2 ^ 64
    → i ≢ 32
    → i ≢ 33
    → i ≢ 128
    → let table = init_idt irq00 irq01 irq80 idt in
      IsGate irq00 (table 32)
      × IsGate irq01 (table 33)
      × IsGate irq80 (table 128)
      × (table i ≡ idt i)
unfolding init_idt set_idt_entry
init_idt_lem irq00 irq01 irq80 i idt a b c na nb nc =
    let ea : (i == 32) ≡ false = ground arith in
    let eb : (i == 33) ≡ false = ground arith in
    let ec : (i == 128) ≡ false = ground arith in
    (
      (omega arith, refl, refl, refl, refl),
      (omega arith, refl, refl, refl, refl),
      (omega arith, refl, refl, refl, refl),
      rw (ea, eb, ec) refl,
    )

-- The timer's interrupt calls the handlers that are due, and leaves the keyboard alone.
irq_timer :
    (t : Timer) (xs : List Task) (k : Keyboard) (status keycode : ℕ)
    → Holds t xs
    → All IsPeriodic xs
    → Ensures
        (λ (r : Served).
          (r.0 ≡ due_handlers ((t.ticks + 1) % 2 ^ 64) xs)
          × Holds r.1 (kept ((t.ticks + 1) % 2 ^ 64) xs)
          × (r.2 ≡ k))
        (irq_dispatcher pit_irq status keycode t k)
unfolding irq_dispatcher routines
irq_timer t xs k status keycode v p =
    Ensures-bind
      (λ (r : List ℕ × Timer).
        (r.0 ≡ due_handlers ((t.ticks + 1) % 2 ^ 64) xs)
        × (r.1.ticks ≡ (t.ticks + 1) % 2 ^ 64)
        × Holds r.1 (kept ((t.ticks + 1) % 2 ^ 64) xs))
      _ (timer_handler t) _ (λ r d. (d.0, d.2, refl)) (timer_handler_lem t xs v p)
