-- ===== src/Commands/Tests.antt =====
-- Commands at concrete inputs.
use so_realtime.Prelude.{◌≡◌, refl, List, [], ◌∷◌, replicate, arith, codes, done, true, Ensures}
use so_realtime.Timer.{Task, no_task, Timer}
use so_realtime.Timer.Table.{Holds}
use so_realtime.Userland.Numbers.{print_dec}
use so_realtime.Commands.{sleep}
use so_realtime.Commands.Printf.{_printf}
use so_realtime.Commands.Printf.Escapes.{escape, _printf-escape}
use so_realtime.Commands.Sleep.{Slept, sleep_lem}

-- "a\nb", written with a line end
_printf-escape_example : _printf (escape (codes "a\nb") ∷ []) ≡ done (codes "a\nb", 1)
_printf-escape_example = _printf-escape (codes "a\nb") (omega arith) (omega arith)

abbrev tasks : List Task
tasks = record { seconds = 1; handler = 100; forever = true } ∷ []

abbrev timer : Timer
timer = record {
  ticks = 35;
  tasks = record { seconds = 1; handler = 100; forever = true } ∷ replicate 4 no_task;
  tasks_number = 1;
}

timer-Holds : Holds timer tasks
timer-Holds = record { junk = replicate 4 no_task; entries = refl; count = refl; room = refl }

sleep_lem_example : Ensures (Slept 2 tasks) (sleep (print_dec 2 ∷ []) timer)
sleep_lem_example = sleep_lem 2 timer tasks (omega arith) timer-Holds (omega arith)
