-- ===== src/Commands/Printf.antt =====
-- Userland/CodeModule/shell/commands.c: the command `printf`, which rewrites its format in place.
pub mod Escapes
pub mod Ends
use so_realtime.Prelude.{
  ℕ, zero, suc, ◌+◌, ◌<◌, ◌≡◌, refl, Bool, true, false, Option, none, some, List, [], ◌∷◌, ◌++◌,
  length, get_or, drop, codes, ◌==◌, if◌then◌else◌, arith, Outcome, done, fault, timeout, ◌>>=◌,
}
use so_realtime.Syscalls.{stdout, stderr}
use so_realtime.Userland.Strings.{minus_one32}
use so_realtime.Userland.Stdio.{Written, before, str, int, fputc, fputs, printf, fprintf}
use so_realtime.Commands.{parse_number}

-- The loop of `merge` from `aux` on: each character moves one place down.
unfoldable pub shift_left : List ℕ → List ℕ
shift_left [] = []
shift_left (c ∷ []) = []
shift_left (c ∷ d ∷ cs) = d ∷ shift_left (d ∷ cs)

-- `merge` on the string that `str` points to. With one character left it steps over the terminator.
unfoldable pub merge : List ℕ → Outcome (List ℕ)
merge [] = fault
merge (c1 ∷ []) = fault
merge (c1 ∷ c2 ∷ cs) = done (
    (if c1 == b'\\' then (if c2 == b'n' then b'\n' else if c2 == b't' then b'\t' else c1) else c1)
    ∷ shift_left (c2 ∷ cs))

-- The loop of `check_special_characters`, on fuel, with the head and the rest of a string.
unfoldable pub check_from : ℕ → List ℕ → Outcome (List ℕ)
check_from zero fmt = timeout
check_from (suc fuel) [] = done []
check_from (suc fuel) (c ∷ fmt) =
    let merged =
      merge (c ∷ fmt) >>= λ m. check_from fuel (drop 1 m) >>= λ r. done (get_or m 0 0 ∷ r) in
    let kept = check_from fuel fmt >>= λ r. done (c ∷ r) in if c == b'\\' then merged else kept

-- Each round passes a character.
unfoldable pub check_special_characters : List ℕ → Outcome (List ℕ)
check_special_characters fmt = check_from (length fmt + 1) fmt

-- What is written first, before the rest of a run.
abbrev pub put : Written → Outcome Written → Outcome Written
put a m = m >>= λ b. done (a.0 ++ b.0, b.1)

abbrev pub fails : Outcome Written → Outcome Written
fails m = m >>= λ w. done (w.0, minus_one32)

-- The branch for "%d", with what `sscanf` found in the argument.
unfoldable pub convert_number : List ℕ → Outcome Written → Option ℕ → Outcome Written
convert_number arg rest none = fails (fprintf stderr (codes "%s: invalid number\n") (str arg ∷ []))
convert_number arg rest (some n) = printf (codes "%d") (int n ∷ []) >>= λ w. put w rest

-- The branch for "%" with the option `option`, and what goes on behind it.
unfoldable pub convert : ℕ → List (List ℕ) → (List (List ℕ) → Outcome Written) → Outcome Written
convert option [] next = fails (fprintf stderr (codes "Invalid arguments\n") [])
convert option (arg ∷ argv) next =
    let number = parse_number arg >>= λ x. put (x.1, 0) (convert_number arg (next argv) x.0) in
    if option == b's'
    then put (fputs stdout arg) (next argv)
    else if option == b'd'
    then number
    else if option == b'c'
    then put (fputc stdout (get_or arg 0 0)) (next argv)
    else fails (fprintf stderr (codes "Unsupported format: '%%c'") (int option ∷ []))

-- The loop of `_printf`, on fuel, with the arguments that are left.
unfoldable pub _printf_from : ℕ → List ℕ → List (List ℕ) → Outcome Written
_printf_from zero fmt argv = timeout
_printf_from (suc fuel) [] argv = done ([], 1)
_printf_from (suc fuel) (c ∷ fmt) argv =
    let converted = convert (get_or fmt 0 0) argv (_printf_from fuel (drop 1 fmt)) in
    let plain = check_special_characters (c ∷ fmt) >>= λ m.
    put (fputc stdout (get_or m 0 0)) (_printf_from fuel (drop 1 m) argv) in
    if c == b'%' then converted else plain

-- Each round passes a character, and the format grows in none.
unfoldable pub _printf : List (List ℕ) → Outcome Written
_printf [] = done ([], 0)
_printf (fmt ∷ []) = check_special_characters fmt >>= λ m. done ((fputs stdout m).0, 1)
_printf (fmt ∷ arg ∷ argv) = _printf_from (length fmt + 1) fmt (arg ∷ argv)
