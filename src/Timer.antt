-- ===== src/Timer.antt =====
-- Kernel/system/timer.c: the tick count and the tasks that run at intervals. The handler of a task is
-- the address that `call_task_handler` jumps to; what is called is recorded in order. A handler is taken
-- not to add or remove tasks itself.
pub mod Table
pub mod Handler
pub mod Wait
mod Tests
use so_realtime.Prelude.{
  ℕ, zero, suc, ◌+◌, ◌-◌, ◌*◌, ◌/◌, ◌%◌, ◌^◌, Bool, true, false, List, [], ◌∷◌, ◌++◌, set, get_or,
  replicate, ltb, ◌==◌, if◌then◌else◌, Outcome, done, fault, timeout, ◌>>=◌,
}

pub record Task : Type 0 where
  pub seconds : ℕ
  pub handler : ℕ
  pub forever : Bool

abbrev pub ticks_per_second : ℕ
ticks_per_second = 18

abbrev pub max_tasks : ℕ
max_tasks = 5

abbrev pub no_task : Task
no_task = record { seconds = 0; handler = 0; forever = false }

pub record Timer : Type 0 where
  pub ticks : ℕ
  pub tasks : List Task
  pub tasks_number : ℕ

-- the static variables at the start
abbrev pub initial : Timer
initial = record { ticks = 0; tasks = replicate max_tasks no_task; tasks_number = 0 }

-- The loop of `remove`: `i`, and the rounds left.
unfoldable pub shift_down : ℕ → ℕ → List Task → List Task
shift_down i zero tasks = tasks
shift_down i (suc n) tasks = shift_down (i + 1) n (set tasks i (get_or tasks (i + 1) no_task))

unfoldable pub remove : ℕ → Timer → Timer
unfolding shift_down
remove index t = record t {
  tasks = shift_down index (t.tasks_number - 1 - index) t.tasks;
  tasks_number = t.tasks_number - 1;
}

-- The loop of `contains`: `i`, and the rounds left.
unfoldable pub contains_from : ℕ → ℕ → List Task → ℕ → Bool
contains_from i zero tasks handler = false
contains_from i (suc n) tasks handler =
    if (get_or tasks i no_task).handler == handler
    then true
    else contains_from (i + 1) n tasks handler

unfoldable pub contains : ℕ → Timer → Bool
unfolding contains_from
contains handler t = contains_from 0 t.tasks_number t.tasks handler

unfoldable pub add_task : ℕ → ℕ → Bool → Timer → Bool × Timer
unfolding contains
add_task seconds handler forever t =
    if contains handler t
    then (false, t)
    else if t.tasks_number == max_tasks - 1
    then (false, t)
    else (
      true,
      record t {
        tasks =
            set t.tasks t.tasks_number
              (record { seconds = seconds; handler = handler; forever = forever });
        tasks_number = t.tasks_number + 1;
      },
    )

-- The loop of `remove_task`: `i`, and the rounds left.
unfoldable pub remove_task_from : ℕ → ℕ → ℕ → Timer → Bool × Timer
unfolding remove
remove_task_from i zero handler t = (false, t)
remove_task_from i (suc n) handler t =
    if (get_or t.tasks i no_task).handler == handler
    then (true, remove i t)
    else remove_task_from (i + 1) n handler t

unfoldable pub remove_task : ℕ → Timer → Bool × Timer
unfolding remove_task_from
remove_task handler t = remove_task_from 0 t.tasks_number handler t

-- `TICKS_PER_SECOND * task.seconds`, an `unsigned int`
abbrev pub period : Task → ℕ
period task = ticks_per_second * task.seconds % 2 ^ 32

-- The test of the loop of `timer_handler`; a period of 0 is a division by zero.
abbrev pub is_due : ℕ → Task → Bool
is_due ticks task = ticks % period task == 0

-- The loop of `timer_handler`, on fuel: `i`, and the handlers called so far. `remove(i--)` leaves `i` as
-- it is for the next round.
unfoldable pub handle_from : ℕ → ℕ → List ℕ → Timer → Outcome (List ℕ × Timer)
unfolding remove
handle_from zero i called t = timeout
handle_from (suc fuel) i called t =
    let task = get_or t.tasks i no_task in
    let next = handle_from fuel (i + 1) called t in
    let again = handle_from fuel (i + 1) (called ++ (task.handler ∷ [])) t in
    let without = handle_from fuel i (called ++ (task.handler ∷ [])) (remove i t) in
    if ltb i t.tasks_number
    then (if period task == 0
        then fault
        else if is_due t.ticks task
        then (if task.forever then again else without)
        else next)
    else done (called, t)

-- Each round passes a task or removes one.
unfoldable pub timer_handler : Timer → Outcome (List ℕ × Timer)
unfolding handle_from
timer_handler t =
    handle_from (t.tasks_number + 1) 0 [] (record t { ticks = (t.ticks + 1) % 2 ^ 64 })

-- The loop of `wait`, on fuel: `_hlt` returns when the timer's interrupt has been handled.
unfoldable pub wait_from : ℕ → ℕ → List ℕ → Timer → Outcome (List ℕ × Timer)
unfolding timer_handler
wait_from zero waiting called t = timeout
wait_from (suc fuel) waiting called t =
    let rest = timer_handler t >>= λ r. wait_from fuel waiting (called ++ r.0) r.1 in
    if ltb t.ticks waiting then rest else done (called, t)

unfoldable pub wait : ℕ → Timer → Outcome (List ℕ × Timer)
unfolding wait_from
wait millis t =
    let waiting = millis / 1000 * ticks_per_second % 2 ^ 64 in
    wait_from (waiting + 1) waiting [] (record t { ticks = 0 })
