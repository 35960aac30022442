-- ===== src/Timer/Handler.antt =====
-- What one timer interrupt does to the tasks, and how long `wait` waits.
use so_realtime.Prelude.{
  get_or-middle, length-snoc, ℕ, zero, suc, ◌+◌, ◌%◌, ◌^◌, ◌<◌, ◌≡◌, ◌≢◌, refl, sym, ◌∙◌, Bool,
  true, false, List, [], ◌∷◌, ◌++◌, length, length-append, get_or, append_assoc, append-nil, ltb,
  ◌==◌, if◌then◌else◌, arith, Bool-cases, inl, inr, Ensures, Ensures-map, All, lt→ltb,
}
use native.Mathlib.Numerals.{add-one}
use so_realtime.Timer.{Task, no_task, Timer, period, is_due, remove, handle_from, timer_handler}
use so_realtime.Timer.Table.{Holds, remove-Holds}

-- The handlers of the tasks that are due at a tick, in order.
pub due_handlers : ℕ → List Task → List ℕ
due_handlers now [] = []
due_handlers now (x ∷ xs) =
    if is_due now x then x.handler ∷ due_handlers now xs else due_handlers now xs

-- The tasks that stay: those that are not due, or run forever.
pub kept : ℕ → List Task → List Task
kept now [] = []
kept now (x ∷ xs) =
    if is_due now x then (if x.forever then x ∷ kept now xs else kept now xs) else x ∷ kept now xs

-- No task has a period of 0.
abbrev pub IsPeriodic : Task → Type 0
IsPeriodic x = period x ≢ 0

pub kept-All : (now : ℕ) (xs : List Task) → All IsPeriodic xs → All IsPeriodic (kept now xs)
unfolding kept
kept-All now [] h = tt
kept-All now (x ∷ xs) h = elim (Bool-cases (is_due now x)) [
  | inl e ↦ elim (Bool-cases x.forever) [
    | inl f ↦ simp (e, f) (h.0, kept-All now xs h.1)
    | inr f ↦ simp (e, f) (kept-All now xs h.1)
  ]
  | inr e ↦ simp e (h.0, kept-All now xs h.1)
]

-- What the loop has done when it stops.
abbrev Handled : ℕ → List ℕ → List Task → List Task → List ℕ × Timer → Type 0
Handled now called pre xs r =
    (r.0 ≡ called ++ due_handlers now xs) × (r.1.ticks ≡ now) × Holds r.1 (pre ++ kept now xs)

module _ (now : ℕ) (called : List ℕ) (pre : List Task) (x : Task) (xs : List Task)
    (r : List ℕ × Timer) where
  Handled-idle :
      is_due now x ≡ false
      → Handled now called (pre ++ (x ∷ [])) xs r
      → Handled now called pre (x ∷ xs) r
  unfolding due_handlers kept
  Handled-idle e (a, b, c) = rw e (a, b, rw (append_assoc pre (x ∷ []) (kept now xs)) at c)

  Handled-stays :
      is_due now x ≡ true
      → x.forever ≡ true
      → Handled now (called ++ (x.handler ∷ [])) (pre ++ (x ∷ [])) xs r
      → Handled now called pre (x ∷ xs) r
  unfolding due_handlers kept
  Handled-stays e f (a, b, c) =
      simp (e, f)
        (
          a ∙ append_assoc called (x.handler ∷ []) (due_handlers now xs),
          b,
          rw (append_assoc pre (x ∷ []) (kept now xs)) at c,
        )

  Handled-once :
      is_due now x ≡ true
      → x.forever ≡ false
      → Handled now (called ++ (x.handler ∷ [])) pre xs r
      → Handled now called pre (x ∷ xs) r
  unfolding due_handlers kept
  Handled-once e f (a, b, c) =
      simp (e, f) (a ∙ append_assoc called (x.handler ∷ []) (due_handlers now xs), b, c)

Handled-none :
    (now : ℕ) (called : List ℕ) (pre : List Task) (t : Timer)
    → t.ticks ≡ now
    → Holds t (pre ++ [])
    → Handled now called pre [] (called, t)
unfolding due_handlers kept
Handled-none now called pre t tick v = (sym (append-nil called), tick, v)

handle_from_lem :
    (fuel now : ℕ) (called : List ℕ) (t : Timer) (pre xs : List Task)
    → length xs < fuel
    → t.ticks ≡ now
    → All IsPeriodic xs
    → Holds t (pre ++ xs)
    → Ensures (Handled now called pre xs) (handle_from fuel (length pre) called t)
unfolding handle_from
handle_from_lem zero now called t pre xs enough tick periodic v = absurd (omega arith)
handle_from_lem (suc fuel) now called t pre [] enough tick periodic v =
    let e : ltb (length pre) t.tasks_number ≡ false =
      ground (arith, v.count, length-append pre []) in
    rw e (Handled-none now called pre t tick v)
handle_from_lem (suc fuel) now called t pre (x ∷ xs) enough tick (px, pxs) v =
    rw (more, here, live)
      (elim (Bool-cases (is_due now x)) [
        | inr idle ↦
            rw (due_now idle, add-one)
              (Ensures-map (Handled now called (pre ++ (x ∷ [])) xs)
                (Handled now called pre (x ∷ xs)) _ (λ r. Handled-idle now called pre x xs r idle)
                (rw (length-snoc pre x) at (
                  handle_from_lem fuel now called t (pre ++ (x ∷ [])) xs (omega arith) tick pxs
                    passed)))
        | inl due ↦ elim (Bool-cases x.forever) [
          | inl stays ↦
              simp (due_now due, stays, add-one)
                (Ensures-map (Handled now (called ++ (x.handler ∷ [])) (pre ++ (x ∷ [])) xs)
                  (Handled now called pre (x ∷ xs)) _
                  (λ r. Handled-stays now called pre x xs r due stays)
                  (rw (length-snoc pre x) at (
                    handle_from_lem fuel now (called ++ (x.handler ∷ [])) t (pre ++ (x ∷ [])) xs
                      (omega arith) tick pxs passed)))
          | inr once ↦
              simp (due_now due, once)
                (Ensures-map (Handled now (called ++ (x.handler ∷ [])) pre xs)
                  (Handled now called pre (x ∷ xs)) _
                  (λ r. Handled-once now called pre x xs r due once)
                  (handle_from_lem fuel now (called ++ (x.handler ∷ [])) (remove (length pre) t) pre
                    xs (omega arith) tick pxs (remove-Holds t pre x xs v)))
        ]
      ])
  where
    more : ltb (length pre) t.tasks_number ≡ true
    more = lt→ltb _ _ (omega (arith, v.count, length-append pre (x ∷ xs)))

    here : get_or t.tasks (length pre) no_task ≡ x
    here =
        rw (v.entries, append_assoc pre (x ∷ xs) v.junk)
          (get_or-middle pre (xs ++ v.junk) x no_task)

    live : (period x == 0) ≡ false
    live = ground arith

    due_now : {b : Bool} → is_due now x ≡ b → is_due t.ticks x ≡ b
    due_now e = rw tick e

    passed : Holds t ((pre ++ (x ∷ [])) ++ xs)
    passed = rw (append_assoc pre (x ∷ []) xs) v

-- If the array holds the tasks `xs`, none with a period of 0, a timer interrupt advances the tick count,
-- calls the handlers of exactly the tasks that are due at the new count, in their order, and drops those
-- among them that do not run forever.
pub timer_handler_lem :
    (t : Timer) (xs : List Task)
    → Holds t xs
    → All IsPeriodic xs
    → Ensures
        (λ (r : List ℕ × Timer).
          (r.0 ≡ due_handlers ((t.ticks + 1) % 2 ^ 64) xs)
          × (r.1.ticks ≡ (t.ticks + 1) % 2 ^ 64)
          × Holds r.1 (kept ((t.ticks + 1) % 2 ^ 64) xs))
        (timer_handler t)
unfolding timer_handler
timer_handler_lem t xs v periodic =
    handle_from_lem (t.tasks_number + 1) ((t.ticks + 1) % 2 ^ 64) []
      (record t { ticks = (t.ticks + 1) % 2 ^ 64 }) [] xs (omega (arith, v.count)) refl periodic
      (record { junk = v.junk; entries = v.entries; count = v.count; room = v.room })
