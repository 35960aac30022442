-- ===== src/Syscalls/Toggle.antt =====
-- Switching the clock on the screen on and off.
use so_realtime.Prelude.{ℕ, ◌-◌, ◌<◌, ◌≡◌, true, false, List, [], ◌∷◌, ◌++◌, length, codes, arith}
use so_realtime.KernelLib.{Bytes}
use so_realtime.Rtc.{Chip, time}
use so_realtime.Rtc.Corner.{corner, corner-show_time, corner-hide_time}
use so_realtime.Timer.{Task, Timer, max_tasks, remove_task}
use so_realtime.Timer.Table.{Holds, has_handler, remove_task-Holds, add_task-Holds}
use so_realtime.Timer.Table.New.{added-new, has_handler-new, drop_handler-absent}
use so_realtime.Syscalls.{sys_time}

-- The task that shows the clock each second.
abbrev pub clock_task : ℕ → Task
clock_task show_task = record { seconds = 1; handler = show_task; forever = true }

-- The tasks of the timer, and what the corner of the screen shows.
abbrev pub Displays : List Task → List ℕ → Timer × Bytes → Type 0
Displays xs text (t, m) = Holds t xs × (corner m ≡ text)

module _ {S : Type 0} (chip : Chip S) (show_task : ℕ) (s : S) (t : Timer) (m : Bytes)
    (xs : List Task) where
  switched_on :
      Holds t xs
      → has_handler show_task xs ≡ false
      → length xs < max_tasks - 1
      → Displays
          (xs ++ (clock_task show_task ∷ []))
          (time chip s)
          (sys_time chip show_task s (t, m))
  unfolding sys_time
  switched_on v new room =
      let (found, kept) = remove_task-Holds t xs show_task v in
      let same = drop_handler-absent show_task xs new in
      let (ok, holds) =
        add_task-Holds (remove_task show_task t).1 xs 1 show_task true (rw same at kept)
          (omega arith) in
      let last = added-new 1 show_task true xs new room in
      rw (found, new) (rw last at holds, corner-show_time chip s m)

  switched_off :
      Holds t (xs ++ (clock_task show_task ∷ []))
      → has_handler show_task xs ≡ false
      → Displays xs (codes "        ") (sys_time chip show_task s (t, m))
  unfolding sys_time
  switched_off v new =
      let (there, gone) = has_handler-new (clock_task show_task) xs new in
      let (found, kept) = remove_task-Holds t (xs ++ (clock_task show_task ∷ [])) show_task v in
      rw (found, there) (rw gone at kept, corner-hide_time m)

-- While the timer's tasks do not show the clock and leave room for one more, `sys_time` adds the task that
-- shows it each second, behind the others, and the corner of the screen shows the time. The next
-- `sys_time` takes that task away again, keeps the others, and blanks the corner.
pub sys_time_lem :
    {S : Type 0} (chip : Chip S) (show_task : ℕ) (s s' : S) (t : Timer) (m : Bytes) (xs : List Task)
    → Holds t xs
    → has_handler show_task xs ≡ false
    → length xs < max_tasks - 1
    → let shown = sys_time chip show_task s (t, m) in
      Displays (xs ++ (clock_task show_task ∷ [])) (time chip s) shown
      × Displays xs (codes "        ") (sys_time chip show_task s' shown)
sys_time_lem chip show_task s s' t m xs v new room =
    let on = switched_on chip show_task s t m xs v new room in
    let (t', m') = sys_time chip show_task s (t, m) in
    (on, switched_off chip show_task s' t' m' xs on.0 new)
