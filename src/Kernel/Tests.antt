-- ===== src/Kernel/Tests.antt =====
-- The start of the kernel at concrete inputs.
use so_realtime.Prelude.{◌≡◌, refl, arith, Ensures}
use so_realtime.Screen.{Screen}
use so_realtime.Interrupts.{Idt}
use so_realtime.Kernel.{Layout, get_stack_base, main}
use so_realtime.Kernel.Boot.{Booted, main_lem}

abbrev layout : Layout
layout = record {
  text = 0x100000;
  rodata = 0x104000;
  data_start = 0x106000;
  bss = 0x107000;
  end_of_kernel_binary = 0x107000;
  end_of_kernel = 0x110000;
}

stack_base : get_stack_base layout ≡ 0x117ff8
unfolding get_stack_base
stack_base = refl

abbrev no_entries : Idt
no_entries i = record {
  offset_l = 0;
  selector = 0;
  zero1 = 0;
  access = 0;
  offset_m = 0;
  offset_h = 0;
  zero2 = 0;
}

abbrev dark : Screen
dark = record { video = λ q. 0; current_loc = 0; cursor = 0 }

main_lem_example :
    Ensures (Booted 0x100000 0x100040 0x100080 3) (main 0x100000 0x100040 0x100080 dark no_entries)
main_lem_example =
    main_lem 0x100000 0x100040 0x100080 3 dark no_entries (omega arith) (omega arith) (omega arith)
      (omega arith)
