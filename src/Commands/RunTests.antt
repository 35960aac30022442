-- ===== src/Commands/RunTests.antt =====
-- Userland/CodeModule/tests/tests.c: the tests that the command `tests` runs, over what they read and
-- change.
pub mod Scan
pub mod Heap
use so_realtime.Prelude.{
  ℕ, zero, suc, ◌+◌, ◌-◌, ◌%◌, ◌^◌, Bool, true, false, Option, none, some, List, [], ◌∷◌, ◌++◌,
  length, ltb, ◌==◌, if◌then◌else◌, codes, String, Outcome, done, fault, timeout, ◌>>=◌,
}
use so_realtime.Process.{Process}
use so_realtime.Screen.{Screen}
use so_realtime.Syscalls.{stderr, stddata}
use so_realtime.Userland.Calls.{clear}
use so_realtime.Userland.Heap.{user_malloc}
use so_realtime.Userland.Stdio.{Written, Arg, str, int, puts, printf, fprintf, fgets, scanf}

-- The characters that STDIN and STDDATA have to come, the process and the screen.
pub record Machine : Type 0 where
  pub keys : List ℕ
  pub data_text : List ℕ
  pub process : Process
  pub screen : Screen

-- What is printed, and the machine then.
abbrev pub Step : Type 0
Step = Machine → Outcome (List ℕ × Machine)

infixr 6 ◌>>◌
abbrev pub ◌>>◌ : Step → Step → Step
◌>>◌ a b m = a m >>= λ r. b r.1 >>= λ s. done (r.0 ++ s.0, s.1)

abbrev pub say : List ℕ → Step
say text m = done ((puts text).0, m)

abbrev pub say_format : List ℕ → List Arg → Step
say_format fmt args m = printf fmt args >>= λ w. done (w.0, m)

-- `while (getchar() != '\n')` over the keys.
unfoldable pub drop_line : List ℕ → Outcome (List ℕ)
drop_line [] = timeout
drop_line (c ∷ keys) = let rest = drop_line keys in if c == b'\n' then done keys else rest

-- `CLEAN_BUFFER`
unfoldable pub clean_keys : Step
clean_keys m = drop_line m.keys >>= λ keys. done ([], record m { keys = keys })

-- `ERROR_MESSAGE`
abbrev pub error_message : List ℕ
error_message = codes "TEST FAILED"

unfoldable pub assert : Bool → List ℕ → Outcome (Bool × Written)
assert condition message =
    let failed = fprintf stderr (codes "%s\n") (str message ∷ []) >>= λ w. done (false, w) in
    if condition then done (true, ([], 0)) else failed

abbrev pub expect : Bool → Step
expect condition m = assert condition error_message >>= λ r. done (r.1.0, m)

-- One of the calls of `printf` in `printf_test`, with the number that is expected.
abbrev pub try_printf : List ℕ → List Arg → ℕ → Step
try_printf fmt args expected m = printf fmt args >>= λ w.
    ((λ n. done (w.0, n))
        >> say_format (codes "characters written: %d\n") (int w.1 ∷ [])
        >> expect (w.1 == expected))
      m

unfoldable pub printf_test : Step
printf_test =
    say (codes "printf test:\n")
    >> try_printf (codes "%s\n") (str (codes "string") ∷ []) 7
    >> try_printf (codes "%x\n") (int 10 ∷ []) 2
    >> try_printf (codes "%d\n") (int (2 ^ 32 - 10) ∷ []) 4
    >> try_printf (codes "%o\n") (int 10 ∷ []) 3
    >> try_printf (codes "%b\n") (int 10 ∷ []) 5
    >> try_printf (codes "%c %c\n") (int b'A' ∷ int (b'A' + 255 + 1) ∷ []) 4

-- The variables that `scanf` sets, in order: the others keep the 0 that they start with.
unfoldable pub stored_values : List Arg → ℕ × List ℕ × ℕ
stored_values (int c ∷ str s ∷ int n ∷ values) = (c, s, n)
stored_values (int c ∷ str s ∷ values) = (c, s, 0)
stored_values (int c ∷ values) = (c, [], 0)
stored_values values = (0, [], 0)

abbrev pub scan_format : List ℕ
scan_format = codes "start-%c-%s-%d-end"

unfoldable pub scanf_test : Step
scanf_test =
    say (codes "scanf test:\n")
    >> say_format (codes "Type a text with the following format (ignore spaces): '%s' \n")
        (str scan_format ∷ [])
    >> (λ m. scanf scan_format m.keys >>= λ r.
        let (c, s, n) = stored_values r.0.1 in
        ((λ k. done (r.1, record k { keys = r.2 }))
            >> say_format (codes "You typed: %c, %s, %d\n") (int c ∷ str s ∷ int n ∷ [])
            >> expect (r.0.0 == 3))
          m)

-- The loop of `fgets_test`, on fuel. A line of 50 characters has its terminator behind the array.
unfoldable pub print_lines : ℕ → Step
print_lines zero m = timeout
print_lines (suc fuel) m = fgets stddata 50 m.data_text >>= λ l.
    let left = record m { data_text = l.2 } in
    let more =
      λ (line : List ℕ). (say_format (codes "%s\n") (str line ∷ []) >> print_lines fuel) left in
    elim l.0 [
      | none ↦ done (l.1, left)
      | some line ↦ if ltb (length line) 50 then more line else fault
    ]

unfoldable pub fgets_test : ℕ → Step
fgets_test fuel =
    say (codes "fgets test:\n") >> say (codes "Reading from data module...\n") >> print_lines fuel

-- One of the calls of `malloc` in `malloc_test`: the address, and what the process is then.
abbrev pub try_malloc : ℕ → (ℕ → Step) → Step
try_malloc size next m = user_malloc size m.process >>= λ r. next r.0 (record m { process = r.1 })

abbrev pub print_pointer : ℕ → Step
print_pointer ptr = say_format (codes "ptr = %d\n") (int (ptr % 2 ^ 32) ∷ [])

unfoldable pub malloc_test : Step
malloc_test =
    say (codes "malloc test:\n")
    >> try_malloc 4 (λ first.
      print_pointer first
      >> try_malloc 10 (λ second.
        expect (second == (first + 4) % 2 ^ 64)
        >> print_pointer second
        >> try_malloc 0 (λ third. expect (third == (second + 10) % 2 ^ 64) >> print_pointer third)))

abbrev pub stars : Step
stars = say (codes "*******************************\n")

unfoldable pub run_test : Step → Step
run_test test =
    say (codes "\nType enter to start the next test...\n") >> clean_keys >> stars >> test >> stars

-- What `run_tests` does behind the tests.
abbrev pub end_tests : Step
end_tests =
    say (codes "Type enter to continue...")
    >> clean_keys
    >> (λ m. done ([], record m { screen = clear m.screen }))

unfoldable pub run_tests : ℕ → Step
run_tests fuel =
    run_test printf_test
    >> run_test scanf_test
    >> run_test (fgets_test fuel)
    >> run_test malloc_test
    >> end_tests
