-- ===== src/Session.antt =====
-- Userland/CodeModule/shell/shell.c, commands.c and codeModule.c: the shell at work. It reads one key after
-- another, shows what is typed, and runs the command of each line on the machine. What a step comes to is
-- the text that it prints, to STDOUT and STDERR alike, and the state then; the system calls put the text on
-- the screen.
pub mod Typing
pub mod Commands
pub mod Clock
mod Tests
use so_realtime.Prelude.{
  ℕ, zero, suc, Bool, true, false, List, [], ◌∷◌, ◌++◌, ltb, ◌==◌, ◌||◌, ◌&&◌, leb, if◌then◌else◌,
  codes, Outcome, done, fault, timeout, ◌>>=◌,
}
use so_realtime.KernelLib.{Bytes}
use so_realtime.Process.{Process}
use so_realtime.Rtc.{Chip}
use so_realtime.Screen.{Screen}
use so_realtime.Timer.{Timer}
use so_realtime.Graphics.{Ports}
use so_realtime.Fractals.{Doubles}
use so_realtime.Syscalls.{stderr}
use so_realtime.Userland.Calls.{exit}
use so_realtime.Userland.Stdio.{Written, str, putchar, printf, fprintf}
use so_realtime.Shell.{Action, Line, clean_buffer, command_names, update_shell, _get_username}
use so_realtime.Commands.{Run, refuse, echo, _clear, _time, _date, _set_time, _set_date, sleep}
use so_realtime.Commands.Fractal.{View, fractal}
use so_realtime.Commands.Help.{help}
use so_realtime.Commands.Printf.{_printf}
use so_realtime.Commands.RunTests.{Machine, run_tests}

-- The parts of the machine that the commands read and change: the registers of the clock, the timer, the
-- view with the adapter's registers, the keys that are still to come, the process, and the screen, without
-- the text that is printed. `called` is the handlers that the timer called so far, which are only listed;
-- `halted` says that the processor stands.
pub record World (S A : Type 0) : Type 0 where
  pub clock : S
  pub timer : Timer
  pub called : List ℕ
  pub view : View A
  pub keys : List ℕ
  pub process : Process
  pub screen : Screen
  pub halted : Bool

-- What a world is made with: the clock chip, the address of `show_time`, the ports and the buffer of the
-- graphics adapter, the processor's numbers, and the rounds for the loops over the data.
pub record Platform (S A D : Type 0) : Type 0 where
  pub chip : Chip S
  pub show_task : ℕ
  pub ports : Ports A
  pub buffer : ℕ
  pub doubles : Doubles D
  pub fuel : ℕ

-- A run on a part of the world, as a run on the world.
abbrev pub within : {X W : Type 0} → Run X → (X → W) → Run W
within run put = run >>= λ r. done (r.0, put r.1)

abbrev pub prints : {W : Type 0} → Outcome Written → W → Run W
prints out w = out >>= λ r. done (r, w)

-- A run behind a text that is printed.
abbrev pub and_then :
    {W : Type 0} → List ℕ → Outcome (List ℕ × Line × W) → Outcome (List ℕ × Line × W)
and_then out m = m >>= λ r. done (out ++ r.0, r.1, r.2)

module _ {S A D : Type 0} (platform : Platform S A D) where
  -- `exit(0)` does not return.
  unfoldable pub _exit : List (List ℕ) → World S A → Run (World S A)
  _exit [] w = done (([], 0), record w { screen = exit w.screen; halted = true })
  _exit (arg ∷ argv) w = refuse "Too many arguments!\n" w

  unfoldable pub tests : List (List ℕ) → World S A → Run (World S A)
  tests [] w =
      let machine : Machine = record {
        keys = w.keys;
        data_text = w.view.data_text;
        process = w.process;
        screen = w.screen;
      } in
      run_tests platform.fuel machine >>= λ r. done (
        (r.0, 0),
        record w {
          keys = r.1.keys;
          view = record w.view { data_text = r.1.data_text };
          process = r.1.process;
          screen = r.1.screen;
        },
      )
  tests (arg ∷ argv) w = refuse "Invalid number of arguments!\n" w

  -- `command.fn(argc, argv)`, for the index of the command. `time` draws the clock, or takes it away, in the
  -- memory of the screen.
  unfoldable pub command_fn : List ℕ → ℕ → List (List ℕ) → World S A → Run (World S A)
  command_fn username zero argv w = prints (echo username argv) w
  command_fn username (suc zero) argv w = prints (help argv) w
  command_fn username (suc (suc zero)) argv w =
      within (fractal platform.ports platform.doubles platform.buffer platform.fuel argv w.view)
        (λ v. record w { view = v })
  command_fn username (suc (suc (suc zero))) argv w =
      within (_clear argv w.screen) (λ s. record w { screen = s })
  command_fn username (suc (suc (suc (suc zero)))) argv w = _exit argv w
  command_fn username (suc (suc (suc (suc (suc zero))))) argv w =
      within (_time platform.chip platform.show_task w.clock argv (w.timer, w.screen.video))
        (λ (t, m). record w { timer = t; screen = record w.screen { video = m } })
  command_fn username (suc (suc (suc (suc (suc (suc zero)))))) argv w =
      within (_date platform.chip argv w.clock) (λ s. record w { clock = s })
  command_fn username (suc (suc (suc (suc (suc (suc (suc zero))))))) argv w =
      within (_set_time platform.chip argv w.clock) (λ s. record w { clock = s })
  command_fn username (suc (suc (suc (suc (suc (suc (suc (suc zero)))))))) argv w =
      within (_set_date platform.chip argv w.clock) (λ s. record w { clock = s })
  command_fn username (suc (suc (suc (suc (suc (suc (suc (suc (suc zero))))))))) argv w =
      within (sleep argv w.timer) (λ (hs, t). record w { timer = t; called = w.called ++ hs })
  command_fn username (suc (suc (suc (suc (suc (suc (suc (suc (suc (suc zero)))))))))) argv w =
      tests argv w
  command_fn username id argv w = prints (_printf argv) w

  -- What `execute_command` prints and does.
  unfoldable pub perform : List ℕ → Action → World S A → Outcome (List ℕ × World S A)
  perform username Action.nothing w = done ((putchar b'\n').0, w)
  perform username Action.invalid w =
      fprintf stderr (codes "Invalid command!\n") [] >>= λ out. done (out.0, w)
  perform username Action.overrun w = fault
  perform username (Action.run id argv) w = command_fn username id argv w >>= λ r. done (r.0.0, r.1)

  abbrev pub os_name : List ℕ
  os_name = codes "os"

  unfoldable pub prompt : List ℕ → Outcome Written
  prompt username = printf (codes "%s@%s> ") (str username ∷ str os_name ∷ [])

  -- What `update_shell` shows of a key.
  unfoldable pub echo_key : ℕ → Line → List ℕ
  echo_key key l =
      if key == 0 || leb 128 key
      then []
      else if key == 10
      then (if l.current_pos == 0 then [] else (putchar b'\n').0)
      else if key == 8
      then (if ltb 0 l.current_pos then (putchar 8).0 else [])
      else if (key == 32 || key == 9) && l.current_pos == 0
      then []
      else (putchar key).0

  -- The case of the line end: the command, and the prompt unless the processor stands.
  abbrev pub enter : List ℕ → Line → World S A → Outcome (List ℕ × Line × World S A)
  enter username l w = perform username (update_shell command_names 10 l).0 w >>= λ r.
      let stands = done (r.0, l, r.1) in
      let goes_on =
        prompt username >>= λ p. done (r.0 ++ p.0, (update_shell command_names 10 l).1, r.1) in
      if r.1.halted then stands else goes_on

  -- `update_shell` for a key, with all that it prints.
  unfoldable pub update : List ℕ → ℕ → Line → World S A → Outcome (List ℕ × Line × World S A)
  update username key l w =
      let line_end = enter username l w >>= λ r. done (echo_key key l ++ r.0, r.1, r.2) in
      let other = done (echo_key key l, (update_shell command_names key l).1, w) in
      if key == 10 then line_end else other

  -- The loop of `main`, on fuel: it waits where no more keys come, and ends where the processor stands.
  unfoldable pub main_loop : ℕ → List ℕ → Line → World S A → Outcome (List ℕ × Line × World S A)
  main_loop zero username l w = timeout
  main_loop (suc fuel) username l w =
      let round = λ (key : ℕ) (keys : List ℕ).
        update username key l (record w { keys = keys }) >>= λ r.
        and_then r.0 (main_loop fuel username r.1 r.2) in
      if w.halted
      then done ([], l, w)
      else elim w.keys [ [] ↦ done ([], l, w) | key ∷ keys ↦ round key keys ]

  -- `init_shell`: what it prints, the name and the world.
  unfoldable pub init_shell : ℕ → World S A → Outcome (List ℕ × List ℕ × World S A)
  init_shell fuel w = _get_username fuel w.keys >>= λ r.
      prompt r.1 >>= λ p. done (r.0 ++ ((putchar b'\n').0 ++ p.0), r.1, record w { keys = r.2 })

  -- `main`
  unfoldable pub shell_main : ℕ → World S A → Outcome (List ℕ × Line × World S A)
  shell_main fuel w = init_shell fuel w >>= λ r. and_then r.0 (main_loop fuel r.1 clean_buffer r.2)
