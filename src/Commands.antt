-- ===== src/Commands.antt =====
-- Userland/CodeModule/shell/commands.c: the commands of the shell, over the arguments that `parse_args`
-- leaves. A run is what the command prints, to STDOUT and STDERR alike, its result as an `int`, and what
-- becomes of the state that its system calls change. `exit` and `tests` stand with Session.
pub mod Clock
pub mod Help
pub mod Fractal
pub mod Printf
pub mod RunTests
pub mod Sleep
mod Tests
pub mod Line
use so_realtime.Prelude.{
  ℕ, zero, suc, ◌+◌, ◌-◌, ◌*◌, ◌%◌, ◌^◌, ◌||◌, ◌&&◌, not, Bool, true, false, Option, none, some,
  List, [], ◌∷◌, ◌++◌, length, drop, get_or, ltb, leb, ◌==◌, if◌then◌else◌, codes, String, Outcome,
  done, fault, timeout, ◌>>=◌,
}
use so_realtime.Rtc.{Chip, date}
use so_realtime.Screen.{Screen, clear_console}
use so_realtime.Syscalls.{stderr, sys_set_time, sys_set_date, sys_time}
use so_realtime.KernelLib.{Bytes}
use so_realtime.Timer.{Timer, wait}
use so_realtime.Userland.Strings.{minus_one32, strcmp}
use so_realtime.Userland.Numbers.{is_negative}
use so_realtime.Userland.Stdio.{
  Written, then_write, before, Arg, str, int, Scan, fputc, fputs, printf, fprintf, sscanf,
}

-- `MAX_USERNAME_SIZE`, `user`
abbrev pub user : List ℕ
user = codes "USER"

-- A run of a command: what it prints and its result, and the state.
abbrev pub Run : Type 0 → Type 0
Run S = Outcome (Written × S)

-- A message to STDERR, and the result -1.
unfoldable pub refuse : {S : Type 0} → String → S → Run S
refuse message s = fprintf stderr (codes message) [] >>= λ w. done ((w.0, minus_one32), s)

-- What is shown in front of a run.
unfoldable pub shows : {S : Type 0} → List ℕ → Run S → Run S
shows [] m = m
shows (c ∷ cs) m = m >>= λ r. done ((c ∷ (cs ++ r.0.0), r.0.1), r.1)

-- The loop of `echo`.
unfoldable pub echo_from : List ℕ → List (List ℕ) → Outcome Written
echo_from username [] = done ([], 0)
echo_from username (arg ∷ argv) =
    let rest = echo_from username argv in
    let named = printf (codes "%s ") (str username ∷ []) >>= λ w. before w rest in
    let plain = printf (codes "%s ") (str arg ∷ []) >>= λ w. before w rest in
    if get_or arg 0 0 == b'$'
    then (if strcmp user (drop 1 arg) == 0 then named else rest)
    else plain

unfoldable pub echo : List ℕ → List (List ℕ) → Outcome Written
echo username argv = echo_from username argv >>= λ w. done (w.0 ++ (b'\n' ∷ []), 0)

unfoldable pub _clear : List (List ℕ) → Screen → Run Screen
_clear [] s = done (([], 0), clear_console s)
_clear (arg ∷ argv) s = refuse "Too many arguments!\n" s

unfoldable pub _time :
    {S : Type 0} → Chip S → ℕ → S → List (List ℕ) → Timer × Bytes → Run (Timer × Bytes)
_time chip show_task s [] r = done (([], 0), sys_time chip show_task s r)
_time chip show_task s (arg ∷ argv) r = refuse "Too many arguments!\n" r

unfoldable pub _date : {S : Type 0} → Chip S → List (List ℕ) → S → Run S
_date chip [] s = printf (codes "%s\n") (str (date chip s) ∷ []) >>= λ w. done ((w.0, 0), s)
_date chip (arg ∷ argv) s = refuse "Too many arguments!\n" s

-- `x`, where `sscanf(arg, "%d", &x) == 1`.
unfoldable pub number_of : Scan → Option ℕ
number_of (read, [], shown) = none
number_of (read, str s ∷ values, shown) = none
number_of (read, int n ∷ values, shown) = if read == 1 then some n else none

-- With what `sscanf` shows.
unfoldable pub parse_number : List ℕ → Outcome (Option ℕ × List ℕ)
parse_number arg = sscanf arg (codes "%d") >>= λ r. done (number_of r, r.2)

-- The part of `_set_time` and `_set_date` that reads their three numbers.
unfoldable pub with_numbers : {S : Type 0} → List (List ℕ) → (ℕ → ℕ → ℕ → Run S) → S → Run S
with_numbers (a ∷ b ∷ c ∷ []) next s = parse_number a >>= λ x. shows x.1 (elim x.0 [
  | none ↦ refuse "Invalid arguments!\n" s
  | some first ↦
      (parse_number b >>= λ y. shows y.1 (elim y.0 [
        | none ↦ refuse "Invalid arguments!\n" s
        | some second ↦
            (parse_number c >>= λ z. shows z.1 (elim z.0 [
              | none ↦ refuse "Invalid arguments!\n" s
              | some third ↦ next first second third
            ]))
      ]))
])
with_numbers argv next s = refuse "Invalid number of arguments!\n" s

unfoldable pub check_time : {S : Type 0} → Chip S → S → ℕ → ℕ → ℕ → Run S
check_time chip s hour minutes seconds =
    if is_negative seconds || leb 60 seconds
    then refuse "Invalid seconds!\n" s
    else if is_negative minutes || leb 60 minutes
    then refuse "Invalid minutes!\n" s
    else if is_negative hour || leb 24 hour
    then refuse "Invalid hour!\n" s
    else (let r = sys_set_time chip hour minutes seconds s in done (([], r.0), r.1))

unfoldable pub _set_time : {S : Type 0} → Chip S → List (List ℕ) → S → Run S
_set_time chip argv s = with_numbers argv (check_time chip s) s

unfoldable pub check_date : {S : Type 0} → Chip S → S → ℕ → ℕ → ℕ → Run S
check_date chip s day month year =
    if day == 0 || is_negative day || ltb 31 day
    then refuse "Invalid day!\n" s
    else if month == 0 || is_negative month || ltb 12 month
    then refuse "Invalid month!\n" s
    else if is_negative year || leb 80 year
    then refuse "Invalid year (must be between 0 and 79)\n" s
    else (let r = sys_set_date chip day month year s in done (([], r.0), r.1))

unfoldable pub _set_date : {S : Type 0} → Chip S → List (List ℕ) → S → Run S
_set_date chip argv s = with_numbers argv (check_date chip s) s

-- `seconds * 1000` as an `int`, and then as an `unsigned long`.
abbrev pub millis_of : ℕ → ℕ
millis_of seconds =
    let product = seconds * 1000 % 2 ^ 32 in
    if is_negative product then product + 2 ^ 64 - 2 ^ 32 else product

-- `sleep`, with the handlers that the timer calls meanwhile. `sys_wait` answers 0.
unfoldable pub sleep : List (List ℕ) → Timer → Run (List ℕ × Timer)
sleep (arg ∷ []) t = parse_number arg >>= λ x. shows x.1 (elim x.0 [
  | none ↦ refuse "Invalid argument!\n" ([], t)
  | some seconds ↦
      (let invalid = refuse "Invalid seconds!\n" ([], t) in
        let slept = printf (codes "%d\n") (int seconds ∷ []) >>= λ w.
        wait (millis_of seconds) t >>= λ r. done ((w.0, 0), r) in
        if is_negative seconds then invalid else slept)
])
sleep argv t = refuse "Invalid number of arguments!\n" ([], t)
