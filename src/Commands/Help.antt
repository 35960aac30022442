-- ===== src/Commands/Help.antt =====
-- Userland/CodeModule/shell/commands.c: the command `help`.
use so_realtime.Prelude.{
  ℕ, zero, suc, ◌+◌, Option, none, some, List, [], ◌∷◌, codes, String, ◌==◌, if◌then◌else◌, Outcome,
  done, ◌>>=◌,
}
use so_realtime.Syscalls.{stderr}
use so_realtime.Shell.{Command, init_commands}
use so_realtime.Userland.Strings.{minus_one32, strcmp}
use so_realtime.Userland.Stdio.{Written, before, str, fputs, printf, fprintf}

-- The loop of `help` without arguments: the lines that it prints.
unfoldable pub print_descs : List Command → Outcome Written
print_descs [] = done ([], 0)
print_descs (command ∷ commands) =
    let rest = print_descs commands in
    printf (codes "%s\n") (str command.desc ∷ []) >>= λ w. before w rest

-- The loop of `help` that looks for a command, from the index `i` on.
unfoldable pub find_named : ℕ → List Command → List ℕ → Option (ℕ × Command)
find_named i [] option = none
find_named i (command ∷ commands) option =
    let rest = find_named (i + 1) commands option in
    if strcmp command.name option == 0 then some (i, command) else rest

-- The texts of the `switch`.
unfoldable pub details : ℕ → List String
details zero = "\tWrite arguments to the standard output, separated by a single space.\n" ∷ []
details (suc zero) =
    "\tDisplays information about commands.\n"
    ∷ "\tIf no command is specified, prints a list of available commands.\n" ∷ []
details (suc (suc zero)) = "\tStarts video mode and draws the specified fractal.\n" ∷ []
details (suc (suc (suc zero))) = "\tClears the console.\n" ∷ []
details (suc (suc (suc (suc zero)))) = "\tExits the shell.\n" ∷ []
details (suc (suc (suc (suc (suc zero))))) =
    "\tEnables/disables time in the top right corner of the shell.\n" ∷ []
details (suc (suc (suc (suc (suc (suc zero)))))) = "\tPrints the date in the console.\n" ∷ []
details (suc (suc (suc (suc (suc (suc (suc zero))))))) =
    "\tSets the time with the given parameters.\n" ∷ []
details (suc (suc (suc (suc (suc (suc (suc (suc zero)))))))) =
    "\tSets the date with the given parameters.\n" ∷ []
details (suc (suc (suc (suc (suc (suc (suc (suc (suc zero))))))))) =
    "\tSleeps for the given seconds.\n" ∷ []
details (suc (suc (suc (suc (suc (suc (suc (suc (suc (suc zero)))))))))) =
    "\tRuns a series of tests to show the functionality of the standar library.\n" ∷ []
details (suc (suc (suc (suc (suc (suc (suc (suc (suc (suc (suc zero))))))))))) =
    "\tWrites formatted output to the console.\n" ∷ []
details id = []

unfoldable pub print_all : List String → Outcome Written
print_all [] = done ([], 0)
print_all (line ∷ lines) =
    let rest = print_all lines in printf (codes line) [] >>= λ w. before w rest

unfoldable pub help : List (List ℕ) → Outcome Written
help [] = print_descs init_commands >>= λ w. done (w.0, 0)
help (option ∷ []) = elim (find_named 0 init_commands option) [
  | none ↦
      (fprintf stderr (codes "Invalid argument: '%s'\n") (str option ∷ []) >>= λ w.
      done (w.0, minus_one32))
  | some found ↦
      (printf (codes "%s: %s\n") (str found.1.name ∷ str found.1.desc ∷ []) >>= λ w.
      before w (print_all (details found.0)) >>= λ v. done (v.0, 0))
]
help (option ∷ other ∷ argv) = done ((fputs stderr (codes "Too many arguments!\n")).0, minus_one32)
