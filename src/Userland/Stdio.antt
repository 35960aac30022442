-- ===== src/Userland/Stdio.antt =====
-- Userland/CodeModule/lib/stdio.c: formatted output and input, over the numbers of Numbers. Output is the
-- bytes that the system calls put on the screen; input is the characters that successive calls of `fgetc`
-- answer, -1 being the byte 255.
pub mod Printed
pub mod Scanned
pub mod Fields
pub mod Words
pub mod Fitting
mod Tests
use so_realtime.Prelude.{
  ℕ, zero, suc, ◌+◌, ◌-◌, ◌%◌, ◌^◌, ◌||◌, ◌&&◌, Bool, true, false, Option, none, some, List, [],
  ◌∷◌, ◌++◌, length, take, drop, get_or, ltb, leb, ◌==◌, if◌then◌else◌, codes, Outcome, done, fault,
  timeout, ◌>>=◌,
}
use so_realtime.Syscalls.{stdin, stdout, stderr, sys_write}
use so_realtime.Userland.Ctype.{isspace}
use so_realtime.Userland.Strings.{strchr}
use so_realtime.Userland.Numbers.{
  num_to_base, print_hex, print_dec, print_oct, print_bin, is_negative, negate32, read_dec,
}

-- What a call writes to the screen, and its result.
abbrev pub Written : Type 0
Written = List ℕ × ℕ

-- One call after another, with the sum of the results.
abbrev pub then_write : Written → Written → Written
then_write a b = (a.0 ++ b.0, a.1 + b.1)

-- What a call of `sys_write` comes to for its caller.
abbrev pub written : Option (ℕ × List ℕ) × ℕ → Written
written (none, count) = ([], count)
written (some shown, count) = (shown.1, count)

-- `write`: the system call on a buffer of these bytes, up to the first 0.
unfoldable pub write : ℕ → List ℕ → ℕ → Written
write fd buffer size = written (sys_write fd buffer size)

-- `fputc`, with 1 as what the callers count.
unfoldable pub fputc : ℕ → ℕ → Written
fputc fd c = ((write fd (if c == 0 then [] else c ∷ []) 1).0, 1)

unfoldable pub fputs : ℕ → List ℕ → Written
fputs fd [] = ([], 0)
fputs fd (c ∷ str) = then_write (fputc fd c) (fputs fd str)

unfoldable pub putchar : ℕ → Written
putchar c = fputc stdout c

unfoldable pub puts : List ℕ → Written
puts str = fputs stdout str

unfoldable pub fputsn : ℕ → List ℕ → ℕ → Written
fputsn fd str n = write fd str n

-- An argument of a variadic call.
pub data Arg : Type 0 where
  str : List ℕ → Arg
  int : ℕ → Arg

unfoldable pub put_number : ℕ → List ℕ → Written
put_number fd digits = fputsn fd digits (length digits)

-- `print_dec`, which writes the sign by itself.
unfoldable pub put_dec : ℕ → ℕ → Written
put_dec fd num =
    if is_negative num
    then then_write (fputc fd b'-') (put_number fd (num_to_base (negate32 num) 10))
    else put_number fd (num_to_base num 10)

-- The size of the buffers that the digits of a number and their terminator go to.
abbrev pub digits_size : ℕ
digits_size = 20

-- `print_bin`. In the other bases an `int` has at most 11 digits.
unfoldable pub put_bin : ℕ → ℕ → Outcome Written
put_bin fd num =
    if ltb (length (print_bin num)) digits_size then done (put_number fd (print_bin num)) else fault

-- `print_arg`. An argument that is missing or of another type has no value.
unfoldable pub print_arg : ℕ → List Arg → ℕ → Outcome (Written × List Arg)
print_arg fd [] option = fault
print_arg fd (str s ∷ args) option = if option == b's' then done (fputs fd s, args) else fault
print_arg fd (int n ∷ args) option =
    if option == b'x'
    then done (put_number fd (print_hex n), args)
    else if option == b'd'
    then done (put_dec fd n, args)
    else if option == b'o'
    then done (put_number fd (print_oct n), args)
    else if option == b'b'
    then (put_bin fd n >>= λ w. done (w, args))
    else if option == b'c'
    then done (fputc fd (n % 256), args)
    else fault

-- "sxdobc"
abbrev pub printf_formats : List ℕ
printf_formats = b's' ∷ b'x' ∷ b'd' ∷ b'o' ∷ b'b' ∷ b'c' ∷ []

abbrev pub is_printf_format : ℕ → Bool
is_printf_format option = elim (strchr printf_formats option) [ none ↦ false | some r ↦ true ]

abbrev pub before : Written → Outcome Written → Outcome Written
before a m = m >>= λ b. done (then_write a b)

unfoldable pub vfprintf : ℕ → List ℕ → List Arg → Outcome Written
vfprintf fd [] args = done ([], 0)
vfprintf fd (c ∷ []) args = done (fputc fd c)
vfprintf fd (c ∷ option ∷ fmt) args =
    let plain = before (fputc fd c) (vfprintf fd (option ∷ fmt) args) in
    let formatted = print_arg fd args option >>= λ r. before r.0 (vfprintf fd fmt r.1) in
    if c == b'%' && is_printf_format option then formatted else plain

unfoldable pub printf : List ℕ → List Arg → Outcome Written
printf fmt args = vfprintf stdout fmt args

unfoldable pub fprintf : ℕ → List ℕ → List Arg → Outcome Written
fprintf fd fmt args = vfprintf fd fmt args

-- What `fgets` leaves: the line, or `none` for `NULL`; what it echoes; and the input that is left.
abbrev pub Line : Type 0
Line = Option (List ℕ) × List ℕ × List ℕ

-- The loop of `fgets` over the input, with what is read so far. A character above 127 is negative, and
-- skipped. The input has an end only where the model's does: there the code waits.
unfoldable pub fgets_from : ℕ → ℕ → List ℕ → List ℕ → List ℕ → Outcome Line
fgets_from fd n read echo [] = timeout
fgets_from fd n read echo (c ∷ input) =
    let shown = λ (e : ℕ). if fd == stdin then echo ++ (e ∷ []) else echo in
    let skip = fgets_from fd n read echo input in
    let erase = fgets_from fd n (take (length read - 1) read) (shown 8) input in
    let store = fgets_from fd n (read ++ (c ∷ [])) (shown c) input in
    if c == 255
    then done ((if length read == 0 then none else some read), shown b'\n', input)
    else if c == b'\n' || leb n (length read)
    then done (some read, shown b'\n', input)
    else if c == 0 || leb 128 c
    then skip
    else if c == 8
    then (if length read == 0 then skip else erase)
    else store

unfoldable pub fgets : ℕ → ℕ → List ℕ → Outcome Line
fgets fd n input = fgets_from fd n [] [] input

unfoldable pub gets : ℕ → List ℕ → Outcome Line
gets n input = fgets stdin n input

-- "sdc"
abbrev pub is_scanf_format : ℕ → Bool
is_scanf_format option = elim (strchr (b's' ∷ b'd' ∷ b'c' ∷ []) option) [
  | none ↦ false
  | some r ↦ true
]

-- The characters that `read_str` stores.
unfoldable pub read_str : List ℕ → ℕ → List ℕ
read_str [] nextchar = []
read_str (c ∷ buffer) nextchar =
    let rest = read_str buffer nextchar in
    if isspace c || c == 0 || c == 255 || c == nextchar then [] else c ∷ rest

-- `read_arg`: the value stored, and the characters read. A buffer at its end holds the character 0.
unfoldable pub read_arg : List ℕ → ℕ → ℕ → Arg × ℕ
read_arg buffer option nextchar =
    if option == b's'
    then (str (read_str buffer nextchar), length (read_str buffer nextchar))
    else if option == b'd'
    then (int (read_dec buffer).0, (read_dec buffer).1)
    else (int (get_or buffer 0 0), 1)

unfoldable pub skip_spaces : List ℕ → List ℕ
skip_spaces [] = []
skip_spaces (c ∷ cs) = let rest = skip_spaces cs in if isspace c then rest else c ∷ cs

-- How `vsscanf` ends: without a message, or with one of its messages, with the character that it names.
pub data Ending : Type 0 where
  silent no_match : Ending
  bad_option no_value no_character : ℕ → Ending

-- What is written to STDERR then, where `format` is the whole format.
unfoldable pub complain : List ℕ → Ending → Outcome Written
complain format Ending.silent = done ([], 0)
complain format Ending.no_match =
    fprintf stderr (codes "Wrong format, expected '%s'\n") (str format ∷ [])
complain format (Ending.bad_option option) =
    fprintf stderr (codes "Unsupported format '%%c'\n") (int option ∷ [])
complain format (Ending.no_value option) =
    fprintf stderr (codes "Wrong format, expected '%%c'\n") (int option ∷ [])
complain format (Ending.no_character c) =
    fprintf stderr (codes "Wrong format, expected character '%c'\n") (int c ∷ [])

-- The result, the values stored, in order, and the end.
abbrev pub Stopped : Type 0
Stopped = ℕ × List Arg × Ending

-- What `vsscanf` does behind its loop: -1 if either text goes on.
unfoldable pub finish : List ℕ → List ℕ → ℕ → List Arg → Stopped
finish buffer fmt read values =
    if length (skip_spaces fmt) == 0 && length (skip_spaces buffer) == 0
    then (read, values, Ending.silent)
    else (2 ^ 32 - 1, values, Ending.no_match)

-- The loop of `vsscanf`, on fuel. Where both texts end behind their spaces, or "%c" meets the end, the
-- code steps over a terminator.
unfoldable pub scan_from : ℕ → List ℕ → List ℕ → ℕ → List Arg → Outcome Stopped
scan_from zero buffer fmt read values = timeout
scan_from (suc fuel) buffer fmt read values =
    let f = skip_spaces fmt in
    let b = skip_spaces buffer in
    let arg = read_arg b (get_or f 1 0) (get_or f 2 0) in
    let converted = scan_from fuel (drop arg.1 b) (drop 2 f) (read + 1) (values ++ (arg.0 ∷ [])) in
    let matched = scan_from fuel (drop 1 b) (drop 1 f) read values in
    if length buffer == 0 || length fmt == 0
    then done (finish buffer fmt read values)
    else if get_or f 0 0 == b'%'
    then (if is_scanf_format (get_or f 1 0)
        then (if arg.1 == 0
            then done (read, values ++ (arg.0 ∷ []), Ending.no_value (get_or f 1 0))
            else if ltb (length b) arg.1
            then fault
            else converted)
        else done (read, values, Ending.bad_option (get_or f 1 0)))
    else if get_or b 0 0 == get_or f 0 0
    then (if length f == 0 then fault else matched)
    else done (read, values, Ending.no_character (get_or f 0 0))

-- The result, the values stored, and what is shown.
abbrev pub Scan : Type 0
Scan = ℕ × List Arg × List ℕ

-- Each round takes a character of the format.
unfoldable pub sscanf : List ℕ → List ℕ → Outcome Scan
sscanf buffer fmt = scan_from (length fmt + 1) buffer fmt 0 [] >>= λ r.
    complain fmt r.2 >>= λ w. done (r.0, r.1, w.0)

-- `MAX_SIZE`
abbrev pub max_size : ℕ
max_size = 64

-- With all that is shown, and the input that is left. A line of 64 characters has its terminator behind
-- the buffer.
unfoldable pub fscanf : ℕ → List ℕ → List ℕ → Outcome (Scan × List ℕ × List ℕ)
fscanf fd fmt input = fgets fd max_size input >>= λ l. elim l.0 [
  | none ↦ done ((2 ^ 32 - 1, [], []), l.1, l.2)
  | some line ↦
      (let scanned = sscanf line fmt >>= λ r. done (r, l.1 ++ r.2, l.2) in
        if ltb (length line) max_size then scanned else fault)
]

unfoldable pub scanf : List ℕ → List ℕ → Outcome (Scan × List ℕ × List ℕ)
scanf fmt input = fscanf stdin fmt input
