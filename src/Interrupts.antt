-- ===== src/Interrupts.antt =====
-- Kernel/system/interrupts.c: the interrupt descriptor table and the handlers of the hardware interrupts. The
-- table stands at address 0; here it maps the number of an interrupt to its entry. The addresses of the
-- assembly's entry points are parameters, and so are the two ports of the keyboard. The masks of the
-- interrupt controllers are assembly.
pub mod Table
use so_realtime.Prelude.{
  ℕ, ◌+◌, ◌*◌, ◌/◌, ◌%◌, ◌^◌, Option, none, some, List, [], ◌∷◌, set, get_or, replicate, ◌==◌,
  if◌then◌else◌, Outcome, done, fault, ◌>>=◌,
}
use so_realtime.Keyboard.{Keyboard, keyboard_handler}
use so_realtime.Timer.{Timer, timer_handler}

-- `DESCR_INT`
pub record Descriptor : Type 0 where
  pub offset_l : ℕ
  pub selector : ℕ
  pub zero1 : ℕ
  pub access : ℕ
  pub offset_m : ℕ
  pub offset_h : ℕ
  pub zero2 : ℕ

abbrev pub Idt : Type 0
Idt = ℕ → Descriptor

unfoldable pub set_idt_entry : ℕ → ℕ → ℕ → ℕ → Idt → Idt
set_idt_entry index selector offset access idt i =
    if i == index
    then record {
      offset_l = offset % 2 ^ 16;
      selector = selector;
      zero1 = 0;
      access = access;
      offset_m = offset / 2 ^ 16 % 2 ^ 16;
      offset_h = offset / 2 ^ 32 % 2 ^ 32;
      zero2 = 0;
    }
    else idt i

unfoldable pub init_idt : ℕ → ℕ → ℕ → Idt → Idt
init_idt irq00 irq01 irq80 idt =
    set_idt_entry 0x80 8 irq80 0x8e
      (set_idt_entry 0x21 8 irq01 0x8e (set_idt_entry 0x20 8 irq00 0x8e idt))

-- `ISR`, the two that are installed.
pub data Routine : Type 0 where
  timer keyboard : Routine

-- `ISR_SIZE`
abbrev pub isr_size : ℕ
isr_size = 8

abbrev pub pit_irq : ℕ
pit_irq = 0

abbrev pub kb_irq : ℕ
kb_irq = 1

-- The array that `init_interrupts` leaves.
unfoldable pub routines : List (Option Routine)
routines =
    set (set (replicate isr_size none) pit_irq (some Routine.timer)) kb_irq (some Routine.keyboard)

-- The handlers called by the timer, and what the timer and the keyboard hold then.
abbrev pub Served : Type 0
Served = List ℕ × Timer × Keyboard

-- `irqDispatcher`, with what the two ports of the keyboard give. An entry that is not set is a null
-- pointer.
unfoldable pub irq_dispatcher : ℕ → ℕ → ℕ → Timer → Keyboard → Outcome Served
irq_dispatcher irq status keycode t k = elim (get_or routines irq none) [
  | none ↦ fault
  | some routine ↦ elim routine [
    | timer ↦ (timer_handler t >>= λ r. done (r.0, r.1, k))
    | keyboard ↦ done ([], t, keyboard_handler status keycode k)
  ]
]
