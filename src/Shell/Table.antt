-- ===== src/Shell/Table.antt =====
-- The table of commands, and how a line finds its command in it.
use so_realtime.Prelude.{
  ℕ, zero, suc, ◌<◌, ◌≤◌, ◌≡◌, refl, false, List, [], ◌∷◌, ◌++◌, length, get_or, arith, All, ◌==◌,
}
use so_realtime.Userland.Ctype.{isspace}
use so_realtime.Userland.Strings.{prefix, prefix_from}
use so_realtime.Shell.{
  Action, Line, add_command, commands_size, init_commands, command_names, get_command, find_command,
  execute_command, parse_args, run_with, max_args,
}
use so_realtime.Shell.Args.{IsWord, spaced, ended, parse_args_lem}

-- With a 0 or a space behind it, the name finds its command.
abbrev Finds : ℕ → Type 0
Finds id =
    ((cs : List ℕ)
      → find_command 0 command_names ((get_command id).name ++ (0 ∷ cs))
        ≡ run_with id (parse_args (0 ∷ cs)))
    × ((cs : List ℕ)
        → find_command 0 command_names ((get_command id).name ++ (b' ' ∷ cs))
          ≡ run_with id (parse_args (b' ' ∷ cs)))

finds : (id : ℕ) → id < commands_size → Finds id
unfolding find_command prefix prefix_from isspace init_commands add_command get_command
finds zero h = (λ cs. refl, λ cs. refl)
finds (suc zero) h = (λ cs. refl, λ cs. refl)
finds (suc (suc zero)) h = (λ cs. refl, λ cs. refl)
finds (suc (suc (suc zero))) h = (λ cs. refl, λ cs. refl)
finds (suc (suc (suc (suc zero)))) h = (λ cs. refl, λ cs. refl)
finds (suc (suc (suc (suc (suc zero))))) h = (λ cs. refl, λ cs. refl)
finds (suc (suc (suc (suc (suc (suc zero)))))) h = (λ cs. refl, λ cs. refl)
finds (suc (suc (suc (suc (suc (suc (suc zero))))))) h = (λ cs. refl, λ cs. refl)
finds (suc (suc (suc (suc (suc (suc (suc (suc zero)))))))) h = (λ cs. refl, λ cs. refl)
finds (suc (suc (suc (suc (suc (suc (suc (suc (suc zero))))))))) h = (λ cs. refl, λ cs. refl)
finds (suc (suc (suc (suc (suc (suc (suc (suc (suc (suc zero)))))))))) h = (λ cs. refl, λ cs. refl)
finds (suc (suc (suc (suc (suc (suc (suc (suc (suc (suc (suc zero))))))))))) h =
    (λ cs. refl, λ cs. refl)
finds (suc (suc (suc (suc (suc (suc (suc (suc (suc (suc (suc (suc n)))))))))))) h =
    absurd (omega arith)

find_command-spaced :
    (id : ℕ) (ws : List (List ℕ)) (more : List ℕ)
    → id < commands_size
    → find_command 0 command_names ((get_command id).name ++ (spaced ws ++ ended more))
      ≡ run_with id (parse_args (spaced ws ++ ended more))
find_command-spaced id [] more h = (finds id h).0 (0 ∷ more)
find_command-spaced id (w ∷ ws) more h = (finds id h).1 ((w ++ spaced ws) ++ ended more)

starts :
    (id : ℕ) (cs : List ℕ)
    → id < commands_size
    → (get_or ((get_command id).name ++ cs) 0 0 == 0) ≡ false
unfolding init_commands add_command get_command
starts zero cs h = refl
starts (suc zero) cs h = refl
starts (suc (suc zero)) cs h = refl
starts (suc (suc (suc zero))) cs h = refl
starts (suc (suc (suc (suc zero)))) cs h = refl
starts (suc (suc (suc (suc (suc zero))))) cs h = refl
starts (suc (suc (suc (suc (suc (suc zero)))))) cs h = refl
starts (suc (suc (suc (suc (suc (suc (suc zero))))))) cs h = refl
starts (suc (suc (suc (suc (suc (suc (suc (suc zero)))))))) cs h = refl
starts (suc (suc (suc (suc (suc (suc (suc (suc (suc zero))))))))) cs h = refl
starts (suc (suc (suc (suc (suc (suc (suc (suc (suc (suc zero)))))))))) cs h = refl
starts (suc (suc (suc (suc (suc (suc (suc (suc (suc (suc (suc zero))))))))))) cs h = refl
starts (suc (suc (suc (suc (suc (suc (suc (suc (suc (suc (suc (suc n)))))))))))) cs h =
    absurd (omega arith)

-- A buffer that holds the name of a command of the table and at most `MAX_ARGS` words behind it, each after
-- one space, and then two characters 0, runs that command with these words: no command's name stands in
-- the way of another's.
pub execute_command-init_commands :
    (id : ℕ) (ws : List (List ℕ)) (more : List ℕ) (l : Line)
    → id < commands_size
    → All IsWord ws
    → length ws ≤ max_args
    → l.buffer ≡ (get_command id).name ++ (spaced ws ++ ended more)
    → execute_command command_names l ≡ Action.run id ws
unfolding execute_command
execute_command-init_commands id ws more l h k fits e =
    rw
      (
        e,
        starts id (spaced ws ++ ended more) h,
        find_command-spaced id ws more h,
        parse_args_lem ws more k fits,
      )
      refl
