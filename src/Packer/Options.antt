-- ===== src/Packer/Options.antt =====
-- Toolchain/ModulePacker/main.c and modulePacker.h: the parser of the arguments, and `main`. `argp_parse` of
-- the C library is a parameter: the calls of `parse_opt` that it makes for a command line.
pub mod Parsed
mod Tests
use so_realtime.Prelude.{
  ℕ, ◌+◌, ◌≡◌, ◌≢◌, Bool, Option, none, some, List, [], ◌∷◌, take, get_or, replicate, set, map, All,
  ltb, if◌then◌else◌, codes, Outcome, done, fault, ◌>>=◌,
}
use so_realtime.Packer.{pack}

abbrev pub Name : Type 0
Name = List ℕ

-- `MAX_FILES`
abbrev pub max_files : ℕ
max_files = 128

-- `struct arguments`: `none` is a pointer that is not set.
pub record Arguments : Type 0 where
  pub args : List (Option Name)
  pub output_file : Name
  pub count : ℕ

-- `arguments` when `main` calls `argp_parse`, with `OUTPUT_FILE`.
abbrev pub defaults : Arguments
defaults = record {
  args = replicate max_files none;
  output_file = codes "packedKernel.bin";
  count = 0;
}

-- A call of `parse_opt`: its key, with `arg` and `arg_num` where it uses them.
pub data Event : Type 0 where
  output : Name → Event
  arg : ℕ → Name → Event
  args_end : ℕ → Event
  other : Event

-- The answer: 0 with the arguments then, `ARGP_ERR_UNKNOWN`, or the end of the program in `argp_usage`.
pub data Answer : Type 0 where
  accepted : Arguments → Answer
  unknown usage : Answer

-- A name behind the array lands in the other fields.
unfoldable pub parse_opt : Event → Arguments → Outcome Answer
parse_opt (Event.output name) a = done (Answer.accepted (record a { output_file = name }))
parse_opt (Event.arg arg_num name) a =
    if ltb arg_num max_files
    then done (Answer.accepted (record a { args = set a.args arg_num (some name) }))
    else fault
parse_opt (Event.args_end arg_num) a =
    if ltb arg_num 1
    then done Answer.usage
    else done (Answer.accepted (record a { count = arg_num }))
parse_opt Event.other a = done Answer.unknown

abbrev pub Parser : Type 0
Parser = Event → Arguments → Outcome Answer

-- The pointers of `fileArray`.
unfoldable pub given : List (Option Name) → Outcome (List Name)
given [] = done []
given (none ∷ args) = fault
given (some name ∷ args) = given args >>= λ names. done (name ∷ names)

-- How the program ends: in `argp_usage`, or with a status and the file that it wrote, if any.
pub data Exit : Type 0 where
  usage : Exit
  exited : ℕ → Option (Name × List ℕ) → Exit

abbrev pub exit_with : Name → ℕ × Option (List ℕ) → Exit
exit_with name (status, none) = Exit.exited status none
exit_with name (status, some image) = Exit.exited status (some (name, image))

-- `argp_parse` with a parser, the words behind the program's name and `input`: the arguments then, or
-- `none` where the program ends.
abbrev pub Argp : Type 0
Argp = Parser → List Name → Arguments → Outcome (Option Arguments)

module _ (argp : Argp) (read : Name → Option (List ℕ)) (can_create : Name → Bool) where
  -- `main` for the words behind the program's name. `read` is what a file holds, where it can be read;
  -- the file that is written is none of those.
  unfoldable pub packer_main : List Name → Outcome Exit
  packer_main argv = argp parse_opt argv defaults >>= λ p. elim p [
    | none ↦ done Exit.usage
    | some a ↦
        (given (take a.count a.args) >>= λ names.
        pack (map read names) (can_create a.output_file) >>= λ r. done (exit_with a.output_file r))
  ]

-- Calls of a parser one after another. The keys that it does not know are no errors.
unfoldable pub call_all : Parser → List Event → Arguments → Outcome (Option Arguments)
call_all parser [] a = done (some a)
call_all parser (e ∷ es) a = parser e a >>= λ r. elim r [
  | Answer.accepted b ↦ call_all parser es b
  | Answer.unknown ↦ call_all parser es a
  | Answer.usage ↦ done none
]

-- The calls for these names, from the `i`-th on.
abbrev pub numbered : ℕ → List Name → List Event
numbered i [] = Event.args_end i ∷ []
numbered i (name ∷ names) = Event.arg i name ∷ numbered (i + 1) names

-- The calls with the keys that `parse_opt` knows.
abbrev pub told : List Event → List Event
told [] = []
told (Event.other ∷ es) = told es
told (Event.output name ∷ es) = Event.output name ∷ told es
told (Event.arg i name ∷ es) = Event.arg i name ∷ told es
told (Event.args_end i ∷ es) = Event.args_end i ∷ told es

-- A word that is no option.
abbrev pub IsPlain : Name → Type 0
IsPlain name = get_or name 0 0 ≢ b'-'

-- What the library documents of `argp_parse`: it calls the parser with the option, with each word that is
-- no option, under its number, and then with the end of the words; what else it calls it for has keys of
-- its own.
pub record IsArgp (argp : Argp) : Type 0 where
  pub calls : List Name → List Event
  pub runs :
      (parser : Parser) (argv : List Name) (a : Arguments)
      → argp parser argv a ≡ call_all parser (calls argv) a
  pub files : (names : List Name) → All IsPlain names → told (calls names) ≡ numbered 0 names
  pub option :
      (name : Name) (names : List Name)
      → All IsPlain names
      → told (calls (codes "-o" ∷ name ∷ names)) ≡ Event.output name ∷ numbered 0 names
