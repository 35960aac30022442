-- ===== src/Session/Tests.antt =====
-- The shell at concrete inputs.
use so_realtime.Prelude.{
  ℕ, suc, ◌+◌, ◌%◌, ◌<◌, ◌≡◌, refl, false, [], ◌∷◌, ◌++◌, length, ◌==◌, if◌then◌else◌, codes, arith,
  done, Ensures, Fails, ◌>>=◌,
}
use so_realtime.Process.{Process, ready}
use so_realtime.Rtc.{Chip, time}
use so_realtime.Rtc.RoundTrip.{Keeps, two_digits}
use so_realtime.Screen.{Screen}
use so_realtime.Graphics.{Ports}
use so_realtime.Fractals.Tests.{whole}
use so_realtime.Userland.Ctype.{isspace}
use so_realtime.Userland.Numbers.{print_dec, num_to_base, low_digits, digit, swap_ends}
use so_realtime.Shell.{clean_buffer, init_commands, add_command, get_command}
use so_realtime.Commands.Line.{set_time_id}
use so_realtime.Commands.RunTests.{Machine, scanf_test, run_tests}
use so_realtime.Commands.RunTests.Scan.{text_for, you_typed, prompt, scanf_test_lem}
use so_realtime.Commands.RunTests.Heap.{run_tests-Fails}
use so_realtime.Session.{World, Platform, command_fn, main_loop}
use so_realtime.Session.Typing.{line_with, awake}
use so_realtime.Session.Commands.{command_line, go_on, main_loop-command}
use so_realtime.Session.Clock.{prompt_text, time_words, main_loop-_set_time}

-- A chip of byte registers.
abbrev chip : Chip (ℕ → ℕ)
chip = record {
  write_register = λ r v s q. if q == r then v % 256 else s q;
  write_register_word = λ r v s q. if q == r then v % 256 else s q;
  read_register = λ r s. s r;
}

chip-Keeps : Keeps chip
chip-Keeps = record {
  bytes = record { same = λ r v s. ground arith; other = λ r q v s ne. ground arith };
  words = record { same = λ r v s. ground arith; other = λ r q v s ne. ground arith };
}

abbrev ports : Ports ℕ
ports = record { write_port_word = λ p v s. s; read_port_word = λ p s. 0 }

abbrev platform : Platform (ℕ → ℕ) ℕ ℕ
platform = record {
  chip = chip;
  show_task = 7000;
  ports = ports;
  buffer = 1000;
  doubles = whole;
  fuel = 100;
}

abbrev process : Process
process = record {
  heap_start = 4096;
  stack_start = 8192;
  heap_size = 4096;
  stack_size = 4096;
  heap_node = [];
  name = codes "shell";
  pid = 1;
  process_state = ready;
  signal_handler = 0;
  user_stack = 0;
  kernel_stack = 0;
  entry_point = 0;
}

abbrev screen : Screen
screen = record { video = λ i. 0; current_loc = 0; cursor = 0 }

abbrev world : World (ℕ → ℕ) ℕ
world = record {
  clock = λ r. 0;
  timer = record { ticks = 0; tasks = []; tasks_number = 0 };
  called = [];
  view = record {
    enabled = false;
    registers = 0;
    display = record { width = 0; height = 0; bpp = 0; memory = λ q. 0 };
    data_text = [];
  };
  keys = [];
  process = process;
  screen = screen;
  halted = false;
}

main_loop-_set_time_example :
    let line = command_line set_time_id (time_words 7 5 9) in
    Ensures
      (λ r.
        (r.0 ≡ (line ++ (b'\n' ∷ [])) ++ prompt_text (codes "ana"))
        × (r.1 ≡ clean_buffer)
        × (r.2.keys ≡ [])
        × (time chip r.2.clock ≡ two_digits 7 (b':' ∷ two_digits 5 (b':' ∷ two_digits 9 []))))
      (main_loop platform
        (length line + 2)
        (codes "ana")
        clean_buffer
        (awake (line ++ (b'\n' ∷ [])) world))
main_loop-_set_time_example =
    main_loop-_set_time platform chip-Keeps (codes "ana") 7 5 9 world (omega arith)
      (omega arith, omega arith, omega arith)

-- "echo a"
main_loop-command_example :
    main_loop platform
      (length (command_line 0 (codes "a" ∷ [])) + suc 3)
      (codes "ana")
      clean_buffer
      (awake (command_line 0 (codes "a" ∷ []) ++ (b'\n' ∷ [])) world)
    ≡ (command_fn platform (codes "ana") 0 (codes "a" ∷ []) (awake [] world) >>= λ r.
        go_on platform
          (codes "ana")
          3
          (command_line 0 (codes "a" ∷ []) ++ (b'\n' ∷ []))
          (line_with (command_line 0 (codes "a" ∷ [])))
          (r.0.0, r.1))
unfolding get_command init_commands add_command isspace
main_loop-command_example =
    main_loop-command platform (codes "ana") 0 (codes "a" ∷ []) [] 3 world (omega arith)
      ((omega arith, ((refl, omega arith), tt)), tt) (omega arith) (omega arith) (omega arith)

abbrev machine : Machine
machine = record {
  keys = text_for b'x' (codes "abc") 12 ++ (b'\n' ∷ []);
  data_text = [];
  process = process;
  screen = screen;
}

text_short : length (text_for b'x' (codes "abc") 12) < 64
unfolding print_dec num_to_base low_digits digit swap_ends
text_short = omega arith

scanf_test_lem_example :
    scanf_test machine
    ≡ done (
      codes "scanf test:\n"
          ++ (prompt
              ++ ((text_for b'x' (codes "abc") 12 ++ (b'\n' ∷ []))
                  ++ you_typed b'x' (codes "abc") 12)),
      record machine { keys = [] },
    )
scanf_test_lem_example =
    scanf_test_lem b'x' (codes "abc") 12 [] machine (omega arith) (omega arith, omega arith)
      (omega arith) text_short refl

run_tests-Fails_example : Fails (run_tests 5 machine)
run_tests-Fails_example = run_tests-Fails 5 machine
