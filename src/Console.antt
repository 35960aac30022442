-- ===== src/Console.antt =====
-- Kernel/naiveConsole.c: text that is printed at start-up into the memory of the screen.
use so_realtime.Prelude.{
  ℕ, zero, suc, ◌+◌, ◌-◌, ◌*◌, ◌%◌, List, [], ◌∷◌, length, ◌==◌, if◌then◌else◌, Outcome, done,
  timeout,
}
use so_realtime.KernelLib.{Bytes, write_byte}
use so_realtime.Userland.Numbers.{low_digits, swap_ends}

abbrev pub video : ℕ
video = 0xB8000

abbrev pub width : ℕ
width = 80

abbrev pub height : ℕ
height = 25

-- The screen's memory, and `currentVideo`.
pub record Console : Type 0 where
  pub memory : Bytes
  pub current_video : ℕ

unfoldable pub nc_print_char : ℕ → Console → Console
nc_print_char character s = record {
  memory = write_byte s.memory s.current_video character;
  current_video = s.current_video + 2;
}

unfoldable pub nc_print : List ℕ → Console → Console
unfolding nc_print_char
nc_print [] s = s
nc_print (c ∷ cs) s = nc_print cs (nc_print_char c s)

-- The loop of `ncNewline`, on fuel.
unfoldable pub newline_from : ℕ → Console → Outcome Console
unfolding nc_print_char
newline_from zero s = timeout
newline_from (suc fuel) s =
    let s' = nc_print_char b' ' s in
    let rest = newline_from fuel s' in
    if (s'.current_video - video) % (width * 2) == 0 then done s' else rest

-- A line has 80 places.
unfoldable pub nc_newline : Console → Outcome Console
unfolding newline_from
nc_newline s = newline_from 80 s

-- The loops of `uintToBase` are those of `num_to_base`, on a value of 64 bits.
unfoldable pub uint_to_base : ℕ → ℕ → List ℕ
unfolding low_digits swap_ends
uint_to_base value base =
    let buffer = low_digits 64 base value in swap_ends (length buffer) 0 (length buffer - 1) buffer

unfoldable pub nc_print_base : ℕ → ℕ → Console → Console
unfolding uint_to_base nc_print
nc_print_base value base s = nc_print (uint_to_base value base) s

unfoldable pub nc_print_dec : ℕ → Console → Console
unfolding nc_print_base
nc_print_dec value s = nc_print_base value 10 s

unfoldable pub nc_print_hex : ℕ → Console → Console
unfolding nc_print_base
nc_print_hex value s = nc_print_base value 16 s

-- The terminator of 64 digits stands behind the buffer, which has 64 bytes.
unfoldable pub nc_print_bin : ℕ → Console → Console
unfolding nc_print_base
nc_print_bin value s = nc_print_base value 2 s

-- The loop of `ncClear`, from its last round on.
unfoldable pub clear_from : ℕ → Bytes → Bytes
clear_from zero m = m
clear_from (suc i) m = write_byte (clear_from i m) (video + i * 2) b' '

unfoldable pub nc_clear : Console → Console
unfolding clear_from
nc_clear s = record { memory = clear_from (height * width) s.memory; current_video = video }
