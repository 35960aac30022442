-- ===== src/Syscalls.antt =====
-- Kernel/system/syscalls.c: the system calls that read, write and set the clock. The user's buffer is
-- given as the bytes that a call puts into it. Sizes are below 2^31, where `int` and `uint64_t` agree.
pub mod Input
pub mod Output
pub mod Toggle
pub mod Dispatch
pub mod Handlers
mod Tests
use so_realtime.Prelude.{
  ℕ, zero, suc, ◌+◌, ◌-◌, ◌%◌, ◌^◌, ◌||◌, Bool, true, false, Option, none, some, List, [], ◌∷◌, ltb,
  ◌==◌, if◌then◌else◌, minus_one, length, drop, Outcome, done, timeout, ◌>>=◌,
}
use so_realtime.Keyboard.{Keyboard, empty_key, key_pressed, get_key}
use so_realtime.KernelLib.{Bytes}
use so_realtime.Rtc.{Chip, set_time, set_date, show_time, hide_time}
use so_realtime.Timer.{Timer, add_task, remove_task}

abbrev pub stdin : ℕ
stdin = 0

abbrev pub stdout : ℕ
stdout = 1

abbrev pub stderr : ℕ
stderr = 2

abbrev pub stddata : ℕ
stddata = 3

abbrev pub light_grey : ℕ
light_grey = 7

abbrev pub red : ℕ
red = 4

-- The loop of `sys_write`, from `len` and the rest of the buffer on: the characters put on the screen,
-- and `len` behind the loop. The buffer is its bytes before the first 0.
unfoldable pub write_from : ℕ → List ℕ → List ℕ × ℕ
write_from zero buffer = ([], minus_one)
write_from (suc len) [] = ([], len)
write_from (suc len) (c ∷ cs) = let r = write_from len cs in (c ∷ r.0, r.1)

-- The color and the characters put on the screen, if any, and the result.
unfoldable pub sys_write : ℕ → List ℕ → ℕ → Option (ℕ × List ℕ) × ℕ
unfolding write_from
sys_write fd buffer size =
    let r = write_from size buffer in
    let count = (size + 2 ^ 64 - r.1 + 2 ^ 64 - 1) % 2 ^ 64 in
    if fd == stdout
    then (some (light_grey, r.0), count)
    else if fd == stderr
    then (some (red, r.0), count)
    else (none, 0)

-- The interrupts of the keyboard that arrive before a poll, as key codes.
unfoldable pub press_all : List ℕ → Keyboard → Keyboard
press_all [] k = k
press_all (c ∷ cs) k = press_all cs (key_pressed c k)

-- `read_stdin` of `len` characters, with the key codes that arrive before each of its polls. It waits
-- for as many polls as that list allows.
unfoldable pub read_stdin : ℕ → List (List ℕ) → Keyboard → Outcome (List ℕ × Keyboard)
unfolding press_all get_key
read_stdin zero arrivals k = done ([], k)
read_stdin (suc len) [] k = timeout
read_stdin (suc len) (codes ∷ arrivals) k =
    let r = get_key (press_all codes k) in
    let idle = read_stdin (suc len) arrivals r.1 in
    let stored = read_stdin len arrivals r.1 >>= λ q. done (r.0 ∷ q.0, q.1) in
    if r.0 == empty_key then idle else stored

-- The loop of `read_stddata` from the rest of the module's text on: what goes to the buffer.
unfoldable pub read_data_from : ℕ → List ℕ → List ℕ
read_data_from zero text = []
read_data_from (suc len) [] = []
read_data_from (suc len) (c ∷ cs) = c ∷ read_data_from len cs

-- `read_stddata`, for the text of the data module and `read_index`: what goes to the buffer, the result,
-- and the new index. `*dir == EOF` compares a `char` with 255, which it never is.
unfoldable pub read_stddata : ℕ → List ℕ → ℕ → List ℕ × ℕ × ℕ
unfolding read_data_from
read_stddata len text read_index =
    let read = read_data_from len (drop read_index text) in
    if length read == 0
    then (empty_key ∷ [], 0, 0)
    else (read, length read, read_index + length read)

-- The chip after `sys_set_time`, and its result as 1 or 0.
unfoldable pub sys_set_time : {S : Type 0} → Chip S → ℕ → ℕ → ℕ → S → ℕ × S
sys_set_time chip hour minutes seconds s =
    if ltb 23 hour || ltb 59 minutes || ltb 59 seconds
    then (0, s)
    else (1, set_time chip hour minutes seconds s)

unfoldable pub sys_set_date : {S : Type 0} → Chip S → ℕ → ℕ → ℕ → S → ℕ × S
sys_set_date chip day month year s =
    if ltb 31 day || ltb 12 month || ltb 99 year
    then (0, s)
    else (1, set_date chip day month year s)

-- `sys_time`, for the address of `show_time`: what the timer holds and the screen shows then.
unfoldable pub sys_time : {S : Type 0} → Chip S → ℕ → S → Timer × Bytes → Timer × Bytes
sys_time chip show_task s (t, m) =
    let (found, removed) = remove_task show_task t in
    if found
    then (removed, hide_time m)
    else ((add_task 1 show_task true removed).1, show_time chip s m)
