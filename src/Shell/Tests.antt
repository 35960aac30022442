-- ===== src/Shell/Tests.antt =====
-- Command lines at concrete inputs.
use so_realtime.Prelude.{
  ℕ, ◌≡◌, ◌≤◌, ◌<◌, refl, List, [], ◌∷◌, ◌++◌, length, All, ltb, ◌==◌, if◌then◌else◌, arith, codes,
  done, fault,
}
use so_realtime.Userland.Ctype.{isspace}
use so_realtime.Shell.{
  Action, command_names, execute_command, find_command, parse_args, args_from, ignore_spaces,
  ignore_characters, word_of, init_commands, add_command, max_username_size, ask_again,
  _get_username,
}
use so_realtime.Userland.Strings.{prefix, prefix_from}
use so_realtime.Shell.Username.{IsStored, question, _get_username_lem}

-- " ab c"
abbrev words : List (List ℕ)
words = (b'a' ∷ b'b' ∷ []) ∷ (b'c' ∷ []) ∷ []

-- The buffer "echo ab c" runs the first command with its words; without a second 0 behind them, the end of
-- the buffer is passed.
echo_words :
    execute_command command_names
      (record { buffer = codes "echo ab c" ++ (0 ∷ 0 ∷ []); current_pos = 9 })
    ≡ Action.run 0 words
unfolding execute_command find_command prefix prefix_from isspace init_commands add_command
    parse_args args_from ignore_spaces ignore_characters word_of
echo_words = refl

echo_overrun :
    execute_command command_names
      (record { buffer = codes "echo ab c" ++ (0 ∷ []); current_pos = 9 })
    ≡ Action.overrun
unfolding execute_command find_command prefix prefix_from isspace init_commands add_command
    parse_args args_from ignore_spaces ignore_characters word_of
echo_overrun = refl

abbrev name : List ℕ
name = codes "ana"

stored : (c : ℕ) → b'a' ≤ c → c < 128 → IsStored c
unfolding isspace
stored c h k = (omega arith, omega arith, omega arith, ground arith)

name-All : All IsStored name
name-All = (
  stored b'a' (omega arith) (omega arith),
  (stored b'n' (omega arith) (omega arith), (stored b'a' (omega arith) (omega arith), tt)),
)

_get_username_lem_example : _get_username 3 (name ++ (b'\n' ∷ codes "ls")) ≡ (
    if length name == 0
    then ask_again (question ++ (b'\n' ∷ [])) (_get_username 2 (codes "ls"))
    else if ltb max_username_size (length name)
    then ask_again ((question ++ name) ++ codes "\nToo long...\n") (_get_username 2 (codes "ls"))
    else if length name == max_username_size
    then fault
    else done (question ++ name, name, codes "ls"))
_get_username_lem_example = _get_username_lem 2 name (codes "ls") name-All (omega arith)
