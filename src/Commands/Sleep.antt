-- ===== src/Commands/Sleep.antt =====
-- The command `sleep`.
use so_realtime.Prelude.{
  ℕ, ◌+◌, ◌*◌, ◌/◌, ◌%◌, ◌^◌, ◌<◌, ◌≡◌, refl, false, List, [], ◌∷◌, ◌++◌, length, All, arith, codes,
  done, Ensures, Ensures-bind,
}
use so_realtime.Timer.{Task, Timer, ticks_per_second, wait}
use so_realtime.Timer.Table.{Holds}
use so_realtime.Timer.Handler.{IsPeriodic}
use so_realtime.Timer.Wait.{Waited, wait_lem}
use so_realtime.Userland.Numbers.{print_dec, is_negative}
use so_realtime.Userland.Strings.{strchr}
use so_realtime.Userland.Stdio.{Written, int, printf, vfprintf, print_arg}
use so_realtime.Userland.Stdio.Printed.{put_dec_lem, fputc_lem}
use so_realtime.Commands.{shows, sleep}
use so_realtime.Commands.Clock.{parse_number-print_dec}

-- What `sleep` prints and answers, and what the timer has done.
abbrev pub Slept : ℕ → List Task → Written × (List ℕ × Timer) → Type 0
Slept seconds xs r =
    (r.0 ≡ (print_dec seconds ++ (b'\n' ∷ []), 0)) × Waited (seconds * ticks_per_second) 0 [] xs r.1

print_line :
    (n : ℕ)
    → printf (codes "%d\n") (int n ∷ [])
      ≡ done (print_dec n ++ (b'\n' ∷ []), length (print_dec n) + 1)
unfolding printf vfprintf print_arg strchr
print_line n = rw (put_dec_lem n, fputc_lem b'\n' (λ e. absurd (omega arith))) refl

-- `sleep` with a number of seconds below 2147484 prints it with a line end, answers 0, and returns after 18
-- ticks for each of the seconds, if the timer's tasks, whose handlers are called meanwhile, have no period
-- of 0.
pub sleep_lem :
    (seconds : ℕ) (t : Timer) (xs : List Task)
    → seconds < 2147484
    → Holds t xs
    → All IsPeriodic xs
    → Ensures (Slept seconds xs) (sleep (print_dec seconds ∷ []) t)
unfolding sleep shows
sleep_lem seconds t xs h v p =
    let valid : is_negative seconds ≡ false = ground arith in
    let product : seconds * 1000 % 2 ^ 32 ≡ seconds * 1000 = omega arith in
    let positive : is_negative (seconds * 1000) ≡ false = ground arith in
    let whole : seconds * 1000 / 1000 ≡ seconds = omega arith in
    rw
      (
        sleep,
        parse_number-print_dec seconds (omega arith),
        valid,
        print_line seconds,
        product,
        positive,
      )
      (Ensures-bind (Waited (seconds * ticks_per_second) 0 [] xs) (Slept seconds xs)
        (wait (seconds * 1000) t) _ (λ r d. (refl, d))
        (rw whole at (wait_lem (seconds * 1000) t xs (omega arith) v p)))
