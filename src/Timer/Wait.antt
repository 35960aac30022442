-- ===== src/Timer/Wait.antt =====
-- How `wait` ends, and what runs meanwhile.
use so_realtime.Prelude.{
  ℕ, zero, suc, ◌+◌, ◌*◌, ◌/◌, ◌%◌, ◌^◌, ◌<◌, ◌≡◌, refl, sym, ap, ◌∙◌, true, false, List, [], ◌++◌,
  append_assoc, append-nil, All, arith, ltb, Ensures, Ensures-bind, Ensures-map,
}
use so_realtime.Timer.{Task, Timer, ticks_per_second, timer_handler, wait_from, wait}
use so_realtime.Timer.Table.{Holds}
use so_realtime.Timer.Handler.{due_handlers, kept, IsPeriodic, timer_handler_lem, kept-All}

-- The handlers called by `n` interrupts after the tick `now`, one interrupt after the other.
pub called_in : ℕ → ℕ → List Task → List ℕ
called_in zero now xs = []
called_in (suc n) now xs = due_handlers (now + 1) xs ++ called_in n (now + 1) (kept (now + 1) xs)

-- The tasks that are left then.
pub left_after : ℕ → ℕ → List Task → List Task
left_after zero now xs = xs
left_after (suc n) now xs = left_after n (now + 1) (kept (now + 1) xs)

-- What `n` more interrupts have done.
abbrev pub Waited : ℕ → ℕ → List ℕ → List Task → List ℕ × Timer → Type 0
Waited n now called xs r =
    (r.0 ≡ called ++ called_in n now xs) × (r.1.ticks ≡ now + n) × Holds r.1 (left_after n now xs)

-- What one interrupt has done.
abbrev Handled : ℕ → List Task → List ℕ × Timer → Type 0
Handled ticks xs r =
    (r.0 ≡ due_handlers ((ticks + 1) % 2 ^ 64) xs)
    × (r.1.ticks ≡ (ticks + 1) % 2 ^ 64)
    × Holds r.1 (kept ((ticks + 1) % 2 ^ 64) xs)

wait_from_lem :
    (fuel n now waiting : ℕ) (called : List ℕ) (t : Timer) (xs : List Task)
    → n < fuel
    → now + n ≡ waiting
    → waiting < 2 ^ 64
    → t.ticks ≡ now
    → Holds t xs
    → All IsPeriodic xs
    → Ensures (Waited n now called xs) (wait_from fuel waiting called t)
unfolding wait_from called_in left_after
wait_from_lem zero n now waiting called t xs enough at small tick v p = absurd (omega arith)
wait_from_lem (suc fuel) zero now waiting called t xs enough at small tick v p =
    let over : ltb t.ticks waiting ≡ false = ground arith in
    rw over (sym (append-nil called), omega arith, v)
wait_from_lem (suc fuel) (suc n) now waiting called t xs enough at small tick v p =
    let more : ltb t.ticks waiting ≡ true = ground arith in
    let next : (t.ticks + 1) % 2 ^ 64 ≡ now + 1 = omega arith in
    let now' = now + 1 in
    rw more (
      Ensures-bind (Handled t.ticks xs) (Waited (suc n) now called xs) (timer_handler t) _
        (λ r d.
          Ensures-map (Waited n now' (called ++ r.0) (kept now' xs)) (Waited (suc n) now called xs)
            (wait_from fuel waiting (called ++ r.0) r.1)
            (λ q e. (
              (e.0 ∙ append_assoc called r.0 _)
                  ∙ ap (λ l. called ++ (l ++ called_in n now' (kept now' xs))) (rw next at d.0),
              e.1 ∙ omega arith,
              e.2,
            ))
            (wait_from_lem fuel n now' waiting (called ++ r.0) r.1 (kept now' xs) (omega arith)
              (omega arith) small (rw next at d.1) (rw next at d.2) (kept-All now' xs p)))
        (timer_handler_lem t xs v p))

-- If the array holds the tasks `xs`, none with a period of 0, and the ticks to wait for fit 64 bits, then
-- `wait` ends, after exactly 18 ticks for each full second. Meanwhile the tick count starts from 0 again,
-- and each interrupt calls the handlers that are due and drops those among them that do not run forever.
pub wait_lem :
    (millis : ℕ) (t : Timer) (xs : List Task)
    → millis / 1000 * ticks_per_second < 2 ^ 64
    → Holds t xs
    → All IsPeriodic xs
    → Ensures (Waited (millis / 1000 * ticks_per_second) 0 [] xs) (wait millis t)
unfolding wait
wait_lem millis t xs fits v p =
    let n = millis / 1000 * ticks_per_second in
    let whole : n % 2 ^ 64 ≡ n = omega arith in
    rw whole (
      wait_from_lem (n + 1) n 0 n [] (record t { ticks = 0 }) xs (omega arith) (omega arith) fits
        refl (record { junk = v.junk; entries = v.entries; count = v.count; room = v.room }) p)
