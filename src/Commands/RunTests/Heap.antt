-- ===== src/Commands/RunTests/Heap.antt =====
-- How the tests end.
use so_realtime.Prelude.{ℕ, codes, Fails, Fails-bind, Fails-bind_all}
use so_realtime.Userland.Heap.{user_malloc-fault}
use so_realtime.Commands.RunTests.{
  Machine, Step, ◌>>◌, say, clean_keys, printf_test, scanf_test, fgets_test, malloc_test, run_test,
  stars, end_tests, run_tests,
}

-- The step comes to no end, whatever the machine is.
abbrev AlwaysFails : Step → Type 0
AlwaysFails a = (m : Machine) → Fails (a m)

after : (a b : Step) → AlwaysFails b → AlwaysFails (a >> b)
after a b h m = Fails-bind_all (a m) _ (λ r. Fails-bind (b r.1) _ (h r.1))

first : (a b : Step) → AlwaysFails a → AlwaysFails (a >> b)
first a b h m = Fails-bind (a m) _ (h m)

malloc_test-Fails : AlwaysFails malloc_test
unfolding malloc_test
malloc_test-Fails m = rw (user_malloc-fault 4 m.process) tt

run_test-Fails : (test : Step) → AlwaysFails test → AlwaysFails (run_test test)
unfolding run_test
run_test-Fails test h =
    let behind = first test stars h in
    let from_stars = after stars (test >> stars) behind in
    after (say (codes "\nType enter to start the next test...\n"))
      (clean_keys >> (stars >> (test >> stars)))
      (after clean_keys (stars >> (test >> stars)) from_stars)

-- The tests never come to their end: whatever is typed and whatever the data module holds, `malloc_test`
-- calls `malloc`, whose system call has no handler.
pub run_tests-Fails : (fuel : ℕ) (m : Machine) → Fails (run_tests fuel m)
unfolding run_tests
run_tests-Fails fuel =
    let malloc_part = run_test malloc_test >> end_tests in
    let fgets_part = run_test (fgets_test fuel) >> malloc_part in
    let fails =
      first (run_test malloc_test) end_tests (run_test-Fails malloc_test malloc_test-Fails) in
    after (run_test printf_test) (run_test scanf_test >> fgets_part) (
      after (run_test scanf_test) fgets_part (after (run_test (fgets_test fuel)) malloc_part fails))
