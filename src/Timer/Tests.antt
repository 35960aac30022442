-- ===== src/Timer/Tests.antt =====
-- Timer tasks at concrete inputs.
use so_realtime.Prelude.{
  ℕ, ◌+◌, ◌*◌, ◌/◌, ◌%◌, ◌^◌, ◌≡◌, refl, true, false, List, [], ◌∷◌, arith, Ensures, done,
  replicate,
}
use so_realtime.Timer.{
  Task, no_task, Timer, ticks_per_second, wait, timer_handler, handle_from, remove, shift_down,
}
use so_realtime.Timer.Table.{Holds}
use so_realtime.Timer.Wait.{Waited, wait_lem}
use so_realtime.Timer.Handler.{due_handlers, kept, timer_handler_lem}

-- A task each second, and one that runs once after two seconds.
abbrev tasks : List Task
tasks =
    record { seconds = 1; handler = 100; forever = true }
    ∷ record { seconds = 2; handler = 200; forever = false }
    ∷ []

abbrev busy : Timer
busy = record {
  ticks = 35;
  tasks =
      record { seconds = 1; handler = 100; forever = true }
      ∷ record { seconds = 2; handler = 200; forever = false }
      ∷ replicate 3 no_task;
  tasks_number = 2;
}

busy-Holds : Holds busy tasks
busy-Holds = record { junk = replicate 3 no_task; entries = refl; count = refl; room = refl }

-- At tick 36 both tasks are called, and the second one goes.
busy_handler :
    timer_handler busy
    ≡ done (
      100 ∷ 200 ∷ [],
      record {
        ticks = 36;
        tasks =
            record { seconds = 1; handler = 100; forever = true }
            ∷ record { seconds = 2; handler = 200; forever = false }
            ∷ replicate 3 no_task;
        tasks_number = 1;
      },
    )
unfolding timer_handler handle_from remove shift_down
busy_handler = refl

timer_handler_lem_example :
    Ensures
      (λ (r : List ℕ × Timer).
        (r.0 ≡ due_handlers ((35 + 1) % 2 ^ 64) tasks)
        × (r.1.ticks ≡ (35 + 1) % 2 ^ 64)
        × Holds r.1 (kept ((35 + 1) % 2 ^ 64) tasks))
      (timer_handler busy)
timer_handler_lem_example = timer_handler_lem busy tasks busy-Holds (ground arith)

-- A second, for which one task is called.
wait_lem_example : Ensures (Waited (1500 / 1000 * ticks_per_second) 0 [] tasks) (wait 1500 busy)
wait_lem_example = wait_lem 1500 busy tasks (omega arith) busy-Holds (ground arith)
