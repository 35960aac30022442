-- ===== src/Shell.antt =====
-- Userland/CodeModule/shell/shell.c: the line that is edited, and how a command is found and its
-- arguments split, and how the user's name is asked for. What else is printed stands with Session; the
-- commands are the names that `init_commands` adds.
pub mod Args
pub mod Table
pub mod Username
mod Tests
use so_realtime.Prelude.{
  ℕ, zero, suc, ◌+◌, ◌-◌, Bool, true, false, Option, none, some, ◌||◌, ◌&&◌, not, List, [], ◌∷◌,
  ◌++◌, set, get_or, drop, length, replicate, ltb, leb, ◌==◌, if◌then◌else◌, map, codes, String,
  Outcome, done, fault, timeout, ◌>>=◌,
}
use so_realtime.Userland.Ctype.{isspace}
use so_realtime.Userland.Strings.{prefix}
use so_realtime.Syscalls.{stderr}
use so_realtime.Userland.Stdio.{int, putchar, printf, fprintf}

abbrev pub buffer_size : ℕ
buffer_size = 256

abbrev pub max_args : ℕ
max_args = 10

pub record Line : Type 0 where
  pub buffer : List ℕ
  pub current_pos : ℕ

unfoldable pub clean_buffer : Line
clean_buffer = record { buffer = replicate buffer_size 0; current_pos = 0 }

-- The characters of a C string in memory: those before the first 0.
unfoldable pub text_of : List ℕ → List ℕ
text_of [] = []
text_of (c ∷ cs) = let rest = text_of cs in if c == 0 then [] else c ∷ rest

unfoldable pub ignore_spaces : List ℕ → List ℕ
unfolding isspace
ignore_spaces [] = []
ignore_spaces (c ∷ cs) = let rest = ignore_spaces cs in if isspace c then rest else c ∷ cs

unfoldable pub ignore_characters : List ℕ → List ℕ
unfolding isspace
ignore_characters [] = []
ignore_characters (c ∷ cs) =
    let rest = ignore_characters cs in if c == 0 || isspace c then c ∷ cs else rest

-- The characters that `ignore_characters` passes: the argument, once a 0 is put behind it.
unfoldable pub word_of : List ℕ → List ℕ
unfolding isspace
word_of [] = []
word_of (c ∷ cs) = let rest = word_of cs in if c == 0 || isspace c then [] else c ∷ rest

-- The loop of `parse_args` on the buffer from a place behind its spaces, with `left` as the arguments that
-- still fit. The result is the arguments, whose number is `argc`, or `none` where the buffer's end is
-- passed. Behind an argument the loop goes on also if a 0 ended it.
unfoldable pub args_from : ℕ → List ℕ → Option (List (List ℕ))
unfolding word_of ignore_characters ignore_spaces
args_from zero str = some []
args_from (suc left) [] = none
args_from (suc left) (c ∷ cs) =
    let behind = ignore_characters (c ∷ cs) in
    let rest = args_from left (ignore_spaces (drop 1 behind)) in
    if c == 0
    then some []
    else if length behind == 0
    then none
    else elim rest [ none ↦ none | some args ↦ some (word_of (c ∷ cs) ∷ args) ]

unfoldable pub parse_args : List ℕ → Option (List (List ℕ))
unfolding args_from ignore_spaces
parse_args str = args_from max_args (ignore_spaces str)

-- What a line comes to: nothing, a command's index with its arguments, "Invalid command!", or an access
-- behind the buffer.
pub data Action : Type 0 where
  nothing : Action
  run : ℕ → List (List ℕ) → Action
  invalid overrun : Action

abbrev pub run_with : ℕ → Option (List (List ℕ)) → Action
run_with i none = Action.overrun
run_with i (some argv) = Action.run i argv

-- The loop of `execute_command` over the buffer, from the command `i` on.
unfoldable pub find_command : ℕ → List (List ℕ) → List ℕ → Action
unfolding prefix parse_args isspace
find_command i [] buffer = Action.invalid
find_command i (name ∷ names) buffer =
    let len = prefix name buffer in
    let next = find_command (i + 1) names buffer in
    let args = drop len buffer in
    if ltb 0 len
    then (if not (get_or args 0 0 == 0) && not (isspace (get_or args 0 0))
        then Action.invalid
        else run_with i (parse_args args))
    else next

unfoldable pub execute_command : List (List ℕ) → Line → Action
unfolding find_command
execute_command names l =
    if get_or l.buffer 0 0 == 0 then Action.nothing else find_command 0 names l.buffer

abbrev pub insert_key : ℕ → Line → Line
insert_key key l =
    let pos = if l.current_pos == buffer_size then 0 else l.current_pos in
    record { buffer = set l.buffer pos key; current_pos = pos + 1 }

-- `update_shell` for the key that `getchar` answers; a key from 128 on is a negative `char`.
unfoldable pub update_shell : List (List ℕ) → ℕ → Line → Action × Line
unfolding execute_command clean_buffer
update_shell names key l =
    if key == 0 || leb 128 key
    then (Action.nothing, l)
    else if key == 10
    then (execute_command names l, clean_buffer)
    else if key == 8
    then (
      Action.nothing,
      (if ltb 0 l.current_pos
          then record {
            buffer = set l.buffer (l.current_pos - 1) 0;
            current_pos = l.current_pos - 1;
          }
          else l),
    )
    else if (key == 32 || key == 9) && l.current_pos == 0
    then (Action.nothing, l)
    else (Action.nothing, insert_key key l)

-- `command_t`, without `id`, which is the index, and `fn`.
pub record Command : Type 0 where
  pub name : List ℕ
  pub desc : List ℕ

unfoldable pub add_command : ℕ → String → String → List Command → List Command
add_command id name desc commands =
    set commands id (record { name = codes name; desc = codes desc })

abbrev pub commands_size : ℕ
commands_size = 12

-- The array that `init_commands` leaves.
unfoldable pub init_commands : List Command
init_commands =
    let none_yet = replicate commands_size (record { name = []; desc = [] }) in
    add_command 11 "printf" "printf [format] [args...]" (
      add_command 10 "tests" "tests" (
        add_command 9 "sleep" "sleep [seconds]" (
          add_command 8 "setdate" "setdate [day] [month] [year]" (
            add_command 7 "settime" "settime [hour] [minutes] [seconds]" (
              add_command 6 "date" "date" (
                add_command 5 "time" "time" (
                  add_command 4 "exit" "exit" (
                    add_command 3 "clear" "clear" (
                      add_command 2 "fractal" "fractal [number]" (
                        add_command 1 "help" "help [command]?"
                          (add_command 0 "echo" "echo [args...]" none_yet)))))))))))

-- The names that `execute_command` compares.
abbrev pub command_names : List (List ℕ)
command_names = map (λ (c : Command). c.name) init_commands

unfoldable pub get_command : ℕ → Command
get_command id = get_or init_commands id (record { name = []; desc = [] })

-- `MAX_USERNAME_SIZE`
abbrev pub max_username_size : ℕ
max_username_size = 20

-- The inner loop of `_get_username` over what `getchar` answers, with what is shown so far, the line and
-- `i`: these three, and the input that is left. It writes past the buffer at `i = 256`.
unfoldable pub read_name : List ℕ → List ℕ → List ℕ → ℕ → Outcome (List ℕ × List ℕ × ℕ × List ℕ)
read_name [] shown name i = timeout
read_name (c ∷ input) shown name i =
    let skip = read_name input shown name i in
    let erase = read_name input (shown ++ (putchar 8).0) (set name (i - 1) 0) (i - 1) in
    let store =
      if ltb i buffer_size
      then read_name input (shown ++ (putchar c).0) (set name i c) (i + 1)
      else fault in
    if c == b'\n'
    then done (shown, name, i, input)
    else if c == 8
    then (if ltb 0 i then erase else skip)
    else if ltb 0 c && ltb c 128 && not (isspace c)
    then store
    else skip

-- What is shown, the name, and the input that is left.
abbrev pub Named : Type 0
Named = List ℕ × List ℕ × List ℕ

-- Another round behind this text.
abbrev pub ask_again : List ℕ → Outcome Named → Outcome Named
ask_again shown m = m >>= λ r. done (shown ++ r.0, r.1, r.2)

-- `_get_username`, on fuel. `strcpy` puts the name and its terminator into an array of
-- `MAX_USERNAME_SIZE`.
unfoldable pub _get_username : ℕ → List ℕ → Outcome Named
_get_username zero input = timeout
_get_username (suc fuel) input =
    printf (codes "Please enter your username (up to %d characters): ") (int max_username_size ∷ [])
    >>= λ q. read_name input q.0 (replicate buffer_size 0) 0 >>= λ r.
        let rest = _get_username fuel r.3 in
        let too_long =
          fprintf stderr (codes "\nToo long...\n") [] >>= λ w. ask_again (r.0 ++ w.0) rest in
        let name = text_of r.1 in
        if r.2 == 0
        then ask_again (r.0 ++ (putchar b'\n').0) rest
        else if ltb max_username_size r.2
        then too_long
        else if ltb (length name) max_username_size
        then done (r.0, name, r.3)
        else fault
