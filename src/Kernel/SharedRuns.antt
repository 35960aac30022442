-- ===== src/Kernel/SharedRuns.antt =====
-- Kernel/kernel.c: the two runs of the shared memory, which print what its calls answer.
use so_realtime.Prelude.{ℕ, Bool, true, false, some, String, codes, Outcome, done, ◌>>=◌}
use so_realtime.Console.{Console, nc_print_dec, nc_print_hex, nc_newline}
use so_realtime.Shared.{Table, shmget, shmat, shmdetach}

-- The table and the console.
abbrev pub Bench : Type 0
Bench = Table × Console

-- `ncPrintDec(shmget(...))` and the end of the line
abbrev pub print_get : String → ℕ → Bool → Bench → Outcome Bench
print_get name size overwrite (t, c) = shmget (some (codes name)) size overwrite t >>= λ r.
    nc_newline (nc_print_dec r.0 c) >>= λ c'. done (r.1, c')

-- `ncPrintHex(shmat(...))`, with the answer
abbrev pub print_at : ℕ → Bench → ℕ × Bench
print_at id (t, c) = let r = shmat id t in (r.0, (r.1, nc_print_hex r.0 c))

-- The same, and the end of the line.
abbrev pub print_at_line : ℕ → Bench → Outcome (ℕ × Bench)
print_at_line id b = let r = print_at id b in nc_newline r.1.1 >>= λ c. done (r.0, (r.1.0, c))

abbrev pub detach : ℕ → Bench → Outcome Bench
detach address (t, c) = shmdetach address t >>= λ r. done (r.1, c)

unfoldable pub shared_test1 : Bench → Outcome Bench
shared_test1 b0 = print_get "foo" 600 true b0 >>= λ b1. print_get "foo" 600 false b1 >>= λ b2.
    print_at_line 1 b2 >>= λ p1. detach p1.0 ((shmat 1 p1.1.0).1, p1.1.1) >>= λ b3.
    print_at_line 1 b3 >>= λ b4.
    detach p1.0 b4.1 >>= λ b5. detach p1.0 b5 >>= λ b6. done (print_at 1 b6).1

unfoldable pub shared_test2 : Bench → Outcome Bench
shared_test2 b0 = print_get "GG" 600 true b0 >>= λ b1. print_get "GGG" 600 true b1 >>= λ b2.
    print_get "GG" 600 true b2 >>= λ b3. print_at_line 10 b3 >>= λ b4.
    print_at_line 1 b4.1 >>= λ b5. print_at_line 2 b5.1 >>= λ b6. print_at_line 3 b6.1 >>= λ b7.
    print_get "Probando" 600 false b7.1 >>= λ b8.
    print_at_line 3 b8 >>= λ p1. detach p1.0 p1.1 >>= λ b9. done (print_at 3 b9).1
