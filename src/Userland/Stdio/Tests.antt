-- ===== src/Userland/Stdio/Tests.antt =====
-- Formatted output and input at concrete inputs.
use so_realtime.Prelude.{ℕ, ◌-◌, ◌^◌, ◌≡◌, refl, List, [], ◌∷◌, arith, codes, done, Ensures}
use so_realtime.Syscalls.{write_from, sys_write}
use so_realtime.Userland.Ctype.{isspace}
use so_realtime.Userland.Strings.{strchr}
use so_realtime.Userland.Numbers.{
  digit, low_digits, swap_ends, num_to_base, print_hex, read_digits, read_dec,
}
use so_realtime.Userland.Stdio.{
  write, fputc, fputsn, str, int, put_number, put_dec, print_arg, vfprintf, printf, read_arg,
  read_str, skip_spaces, complain, finish, scan_from, sscanf, fprintf,
}
use so_realtime.Userland.Stdio.Printed.{Counts}
use so_realtime.Userland.Stdio.Fitting.{printf-FitsFormat}
use so_realtime.Userland.Stdio.Fields.{printed_format, sscanf-printf}

-- "%d\n"
abbrev line_format : List ℕ
line_format = b'%' ∷ b'd' ∷ b'\n' ∷ []

-- tests.c: `printf("%d\n", -10)` answers 4.
printf-minus_ten :
    printf line_format (int (2 ^ 32 - 10) ∷ []) ≡ done (b'-' ∷ b'1' ∷ b'0' ∷ b'\n' ∷ [], 4)
unfolding printf vfprintf strchr print_arg put_dec put_number fputsn fputc write sys_write
    write_from num_to_base low_digits digit swap_ends
printf-minus_ten = refl

-- tests.c: `printf("%x\n", 12)` answers 2.
printf-hex : printf (b'%' ∷ b'x' ∷ b'\n' ∷ []) (int 12 ∷ []) ≡ done (b'C' ∷ b'\n' ∷ [], 2)
unfolding printf vfprintf strchr print_arg print_hex put_number fputsn fputc write sys_write
    write_from num_to_base low_digits digit swap_ends
printf-hex = refl

printf-FitsFormat_example : Ensures Counts (printf line_format (int 7 ∷ []))
unfolding strchr
printf-FitsFormat_example = printf-FitsFormat line_format (int 7 ∷ []) (refl, omega arith)

sscanf-printf_example :
    Ensures
      (λ w. sscanf w.0 (printed_format (7 ∷ [])) ≡ done (2, int 42 ∷ int 7 ∷ [], []))
      (printf (printed_format (7 ∷ [])) (int 42 ∷ int 7 ∷ []))
sscanf-printf_example = sscanf-printf 42 (7 ∷ []) (omega arith)

-- A word and a number.
sscanf-two :
    sscanf (b'a' ∷ b'b' ∷ b' ' ∷ b'7' ∷ []) (b'%' ∷ b's' ∷ b' ' ∷ b'%' ∷ b'd' ∷ [])
    ≡ done (2, str (b'a' ∷ b'b' ∷ []) ∷ int 7 ∷ [], [])
unfolding sscanf scan_from strchr read_arg read_str skip_spaces isspace read_dec read_digits finish
    complain
sscanf-two = refl

-- What a wrong character shows.
sscanf-wrong :
    sscanf (codes "12:3") (codes "%d-%d")
    ≡ done (1, int 12 ∷ [], codes "Wrong format, expected character '-'\n")
unfolding sscanf scan_from strchr read_arg skip_spaces isspace read_dec read_digits complain fprintf
    vfprintf print_arg fputc write sys_write write_from
sscanf-wrong = refl

-- What an argument that is not there, and an option that is not known, show.
sscanf-no_value :
    sscanf (codes "x") (codes "%d") ≡ done (0, int 0 ∷ [], codes "Wrong format, expected '%d'\n")
unfolding sscanf scan_from strchr read_arg skip_spaces isspace read_dec read_digits complain fprintf
    vfprintf print_arg fputc write sys_write write_from
sscanf-no_value = refl

sscanf-bad_option :
    sscanf (codes "x") (codes "%q") ≡ done (0, [], codes "Unsupported format '%q'\n")
unfolding sscanf scan_from strchr skip_spaces isspace complain fprintf vfprintf print_arg fputc
    write sys_write write_from
sscanf-bad_option = refl
