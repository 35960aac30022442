-- ===== src/Kernel.antt =====
-- Kernel/kernel.c: the start of the kernel. The addresses that the linker gives, the text that `cpuVendor`
-- answers and the entry points of the interrupts are parameters. What the loader prints is left out, and so
-- is the jump into the code module.
pub mod Boot
pub mod SharedRuns
mod Tests
use so_realtime.Prelude.{
  ℕ, ◌+◌, ◌-◌, ◌*◌, Option, List, [], ◌∷◌, String, codes, Outcome, done, ◌>>=◌,
}
use so_realtime.KernelLib.{Bytes, memset}
use so_realtime.Console.{Console, nc_print, nc_print_hex, nc_newline}
use so_realtime.Loader.{load_modules}
use so_realtime.Screen.{Screen, clear_screen, puts_at}
use so_realtime.Interrupts.{Idt, init_idt}
use so_realtime.Syscalls.Dispatch.{Call, init_syscalls}
use so_realtime.Memory.Memlib.{init_mem}
use so_realtime.Shared.{Table, init_shared}

-- `text`, `rodata`, `data`, `bss`, `endOfKernelBinary` and `endOfKernel`
pub record Layout : Type 0 where
  pub text : ℕ
  pub rodata : ℕ
  pub data_start : ℕ
  pub bss : ℕ
  pub end_of_kernel_binary : ℕ
  pub end_of_kernel : ℕ

-- `codeModuleAddress` and `dataModuleAddress`
abbrev pub module_addresses : List ℕ
module_addresses = 0x400000 ∷ 0x500000 ∷ []

unfoldable pub clear_bss : ℕ → ℕ → Bytes → Bytes
clear_bss bss_address bss_size m = memset m bss_address 0 bss_size

unfoldable pub get_stack_base : Layout → ℕ
get_stack_base l = l.end_of_kernel + 0x1000 * 8 - 8

-- A text, a number, and the end of the line.
abbrev pub print_line : String → Console → Outcome Console
print_line line c = nc_newline (nc_print (codes line) c)

abbrev pub print_address : String → ℕ → Console → Outcome Console
print_address name address c = nc_newline (nc_print_hex address (nc_print (codes name) c))

-- The address of the stack, and the console with the memory.
unfoldable pub initialize_kernel_binary : Layout → List ℕ → Console → Outcome (ℕ × Console)
initialize_kernel_binary l vendor c = print_line "[x64BareBones]" c >>= λ c1.
    nc_newline (nc_print vendor (nc_print (codes "CPU Vendor:") c1)) >>= λ c2.
    print_line "[Loading modules]" c2 >>= λ c3.
    load_modules l.end_of_kernel_binary module_addresses c3.memory >>= λ loaded.
    print_line "[Done]" (record c3 { memory = loaded.0 }) >>= λ c4. nc_newline c4 >>= λ c5.
    print_line "[Initializing kernel's binary]" c5 >>= λ c6.
    print_address "  text: 0x" l.text
      (record c6 { memory = clear_bss l.bss (l.end_of_kernel - l.bss) c6.memory })
    >>= λ c7. print_address "  rodata: 0x" l.rodata c7 >>= λ c8.
        print_address "  data: 0x" l.data_start c8 >>= λ c9.
        print_address "  bss: 0x" l.bss c9 >>= λ c10.
        print_line "[Done]" c10 >>= λ c11. nc_newline c11 >>= λ c12. done (get_stack_base l, c12)

-- What `main` sets up.
pub record System : Type 0 where
  pub screen : Screen
  pub syscalls : List (Option Call)
  pub idt : Idt
  pub shared : Table

unfoldable pub main : ℕ → ℕ → ℕ → Screen → Idt → Outcome System
main irq00 irq01 irq80 s idt =
    let clear = clear_screen s in
    init_mem (1024 * 4 * 40) >>= λ r. done (record {
      screen = record clear { video = (puts_at (codes "Arqui OS") 2 0 0 clear.video).1 };
      syscalls = init_syscalls;
      idt = init_idt irq00 irq01 irq80 idt;
      shared = init_shared r.1;
    })
