-- ===== src/Syscalls/Tests.antt =====
-- System calls at concrete inputs.
use so_realtime.Prelude.{
  ℕ, ◌≡◌, true, codes, ◌%◌, refl, List, [], ◌∷◌, ◌++◌, replicate, ◌==◌, if◌then◌else◌, arith,
  Ensures,
}
use so_realtime.Keyboard.{idle, isalpha, key_pressed}
use so_realtime.Keyboard.Keymap.{keyboard_map}
use so_realtime.Keyboard.Ring.{Waiting, idle-Waiting, key_pressed-Waiting}
use so_realtime.Rtc.{Chip, time, date, set_date}
use so_realtime.Rtc.RoundTrip.{Keeps, two_digits, year_digits, date-set_date}
use so_realtime.Syscalls.{read_stdin, sys_time}
use so_realtime.Syscalls.Toggle.{clock_task, Displays, sys_time_lem}
use so_realtime.Timer.{Task, no_task, Timer}
use so_realtime.Timer.Table.{Holds}
use so_realtime.Timer.Table.New.{has_handler-other}
use so_realtime.Syscalls.Input.{Delivers, read_stdin-Waiting}

abbrev text : List ℕ
text = b'a' ∷ b'b' ∷ b'c' ∷ []

-- The key 'a' waits.
one_key-Waiting : Waiting (key_pressed 30 idle) (b'a' ∷ [])
unfolding keyboard_map isalpha
one_key-Waiting = key_pressed-Waiting idle [] 30 idle-Waiting (omega arith)

read_stdin-Waiting_example :
    Ensures (Delivers (b'a' ∷ []) []) (read_stdin 1 (replicate 1 []) (key_pressed 30 idle))
read_stdin-Waiting_example =
    read_stdin-Waiting 1 (b'a' ∷ []) [] (key_pressed 30 idle) refl ((λ e. absurd (omega arith)), tt)
      one_key-Waiting

abbrev chip : Chip (ℕ → ℕ)
chip = record {
  write_register = λ r v s q. if q == r then v % 256 else s q;
  write_register_word = λ r v s q. if q == r then v % 256 else s q;
  read_register = λ r s. s r;
}

chip-Keeps : Keeps chip
chip-Keeps = record {
  bytes = record { same = λ r v s. ground arith; other = λ r q v s ne. ground arith };
  words = record { same = λ r v s. ground arith; other = λ r q v s ne. ground arith };
}

abbrev stopped : ℕ → ℕ
stopped r = 0

-- Another task holds the first entry.
abbrev other : List Task
other = record { seconds = 1; handler = 100; forever = true } ∷ []

abbrev timer : Timer
timer = record {
  ticks = 35;
  tasks = record { seconds = 1; handler = 100; forever = true } ∷ replicate 4 no_task;
  tasks_number = 1;
}

timer-Holds : Holds timer other
timer-Holds = record { junk = replicate 4 no_task; entries = refl; count = refl; room = refl }

sys_time_lem_example :
    let shown = sys_time chip 200 stopped (timer, λ q. 0) in
    Displays (other ++ (clock_task 200 ∷ [])) (time chip stopped) shown
    × Displays other (codes "        ") (sys_time chip 200 stopped shown)
sys_time_lem_example =
    sys_time_lem chip 200 stopped stopped timer (λ q. 0) other timer-Holds
      (has_handler-other 200 (record { seconds = 1; handler = 100; forever = true })
        (λ e. absurd (omega arith)))
      (omega arith)

-- The year 2085
date-set_date_example :
    date chip (set_date chip 24 12 85 stopped)
    ≡ two_digits 24 (b'/' ∷ two_digits 12 (b'/' ∷ b'2' ∷ b'0' ∷ year_digits 85))
date-set_date_example =
    date-set_date chip chip-Keeps 24 12 85 stopped (omega arith) (omega arith) (omega arith)
