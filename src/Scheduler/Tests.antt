-- ===== src/Scheduler/Tests.antt =====
-- The ring of processes at concrete inputs.
use so_realtime.Prelude.{ℕ, ◌≡◌, refl, [], ◌∷◌, ◌==◌, if◌then◌else◌, codes, arith, done, Ensures}
use so_realtime.Process.{Process, ProcessState, running, blocked, ready}
use so_realtime.Scheduler.{
  ProcessNode, Scheduler, is_ready, switch_user_to_kernel, switch_kernel_to_user,
}
use so_realtime.Scheduler.Ring.{switch_lem}

abbrev process_in : ProcessState → ℕ → Process
process_in state stack = record {
  heap_start = 0;
  stack_start = 0;
  heap_size = 0;
  stack_size = 0;
  heap_node = [];
  name = codes "p";
  pid = 1;
  process_state = state;
  signal_handler = 0;
  user_stack = stack;
  kernel_stack = 7;
  entry_point = 0;
}

-- 100 leads to 200, which leads to 300, which leads to 100.
abbrev three_nodes : ProcessState → ℕ → ProcessNode
three_nodes third at =
    if at == 100
    then record { process = process_in running 11; next = 200 }
    else if at == 200
    then record { process = process_in blocked 22; next = 300 }
    else record { process = process_in third 33; next = 100 }

abbrev ring_of : ProcessState → Scheduler
ring_of third = record { last_pid_given = 3; current_process_node = 100; nodes = three_nodes third }

switch_lem_example :
    Ensures
      (λ r. (r.0 ≡ 7) × (switch_kernel_to_user 2 r.1 ≡ done 33))
      (switch_user_to_kernel 55 (ring_of ready))
unfolding is_ready
switch_lem_example =
    switch_lem (ring_of ready) 55 2 (200 ∷ []) 300 (omega arith) (omega arith)
      (refl, omega arith, (refl, omega arith, tt)) (refl, tt) refl
