-- ===== src/Timer/Table.antt =====
-- The array of tasks and its count, as a list: `remove`, `add_task`, `contains` and `remove_task` are the
-- list's operations.
pub mod New
use so_realtime.Prelude.{
  get_or-middle, set-middle, length-snoc, ℕ, suc, ◌+◌, ◌-◌, ◌<◌, ◌≡◌, refl, sym, ap, ◌∙◌, Bool,
  true, false, List, [], ◌∷◌, ◌++◌, length, length-append, set, get_or, append_assoc, ◌==◌,
  if◌then◌else◌, arith, Bool-cases, inl, inr,
}
use native.Mathlib.Numerals.{add-one}
use so_realtime.Timer.{
  Task, no_task, max_tasks, Timer, shift_down, remove, contains_from, contains, add_task,
  remove_task_from, remove_task,
}

-- The first `tasks_number` entries of the array are `xs`.
pub record Holds (t : Timer) (xs : List Task) : Type 0 where
  pub junk : List Task
  pub entries : t.tasks ≡ xs ++ junk
  pub count : t.tasks_number ≡ length xs
  pub room : length xs + length junk ≡ max_tasks

-- What stays behind the entries after a removal: a copy of the last one.
abbrev left_over : Task → List Task → List Task → List Task
left_over x [] junk = x ∷ junk
left_over x (y ∷ post) junk = left_over y post junk

length-left_over :
    (x : Task) (post junk : List Task) → length (left_over x post junk) ≡ length junk + 1
length-left_over x [] junk = omega arith
length-left_over x (y ∷ post) junk = length-left_over y post junk

get_or-next {ℓ} :
    {A : Type ℓ} (xs ys : List A) (x y d : A) → get_or (xs ++ (x ∷ y ∷ ys)) (suc (length xs)) d ≡ y
get_or-next [] ys x y d = refl
get_or-next (z ∷ xs) ys x y d = get_or-next xs ys x y d

pub shift_down_lem :
    (pre : List Task) (x : Task) (post junk : List Task)
    → shift_down (length pre) (length post) (pre ++ (x ∷ (post ++ junk)))
      ≡ pre ++ (post ++ left_over x post junk)
unfolding shift_down
shift_down_lem pre x [] junk = refl
shift_down_lem pre x (y ∷ post) junk =
    rw
      (
        shift_down,
        add-one,
        get_or-next pre (post ++ junk) x y no_task,
        set-middle pre (y ∷ (post ++ junk)) x y,
      )
      (rw
        (
          length-snoc pre y,
          append_assoc pre (y ∷ []) (y ∷ (post ++ junk)),
          append_assoc pre (y ∷ []) (post ++ left_over y post junk),
        )
        at (shift_down_lem (pre ++ (y ∷ [])) y post junk))

-- `remove` of the entry at an index takes it out of the list.
pub remove-Holds :
    (t : Timer) (pre : List Task) (x : Task) (post : List Task)
    → Holds t (pre ++ (x ∷ post))
    → Holds (remove (length pre) t) (pre ++ post)
unfolding remove
remove-Holds t pre x post h =
    let e : t.tasks_number - 1 - length pre ≡ length post =
      omega (arith, h.count, length-append pre (x ∷ post)) in
    record {
      junk = left_over x post h.junk;
      entries =
          rw (e, h.entries, append_assoc pre (x ∷ post) h.junk)
            (shift_down_lem pre x post h.junk
              ∙ sym (append_assoc pre post (left_over x post h.junk)));
      count = omega (arith, h.count, length-append pre (x ∷ post), length-append pre post);
      room = omega (
        arith,
        h.room,
        length-append pre (x ∷ post),
        length-append pre post,
        length-left_over x post h.junk,
      );
    }

-- Is a task with the handler among the tasks?
pub has_handler : ℕ → List Task → Bool
has_handler h [] = false
has_handler h (x ∷ xs) = if x.handler == h then true else has_handler h xs

-- The tasks without the first one with the handler.
pub drop_handler : ℕ → List Task → List Task
drop_handler h [] = []
drop_handler h (x ∷ xs) = if x.handler == h then xs else x ∷ drop_handler h xs

contains_from_lem :
    (h : ℕ) (pre xs junk : List Task)
    → contains_from (length pre) (length xs) (pre ++ (xs ++ junk)) h ≡ has_handler h xs
unfolding contains_from has_handler
contains_from_lem h pre [] junk = refl
contains_from_lem h pre (x ∷ xs) junk =
    let ih = contains_from_lem h (pre ++ (x ∷ [])) xs junk in
    rw (get_or-middle pre (xs ++ junk) x no_task, add-one)
      (ap (λ (b : Bool). if x.handler == h then true else b)
        (rw (length-snoc pre x, append_assoc pre (x ∷ []) (xs ++ junk)) at ih))

-- `contains` looks for the handler among the tasks.
pub contains-Holds :
    (t : Timer) (xs : List Task) (h : ℕ) → Holds t xs → contains h t ≡ has_handler h xs
unfolding contains
contains-Holds t xs h v = rw (v.count, v.entries) (contains_from_lem h [] xs v.junk)

remove_task_from_lem :
    (h : ℕ) (t : Timer) (pre xs : List Task)
    → Holds t (pre ++ xs)
    → ((remove_task_from (length pre) (length xs) h t).0 ≡ has_handler h xs)
      × Holds (remove_task_from (length pre) (length xs) h t).1 (pre ++ drop_handler h xs)
unfolding remove_task_from has_handler drop_handler
remove_task_from_lem h t pre [] v = (refl, v)
remove_task_from_lem h t pre (x ∷ xs) v = elim (Bool-cases (x.handler == h)) [
  | inl hit ↦ rw (here, hit) (refl, remove-Holds t pre x xs v)
  | inr miss ↦
      rw (here, miss, add-one)
        (rw (length-snoc pre x, append_assoc pre (x ∷ []) (drop_handler h xs)) at
          (remove_task_from_lem h t (pre ++ (x ∷ [])) xs (rw (append_assoc pre (x ∷ []) xs) v)))
]
  where
    here : get_or t.tasks (length pre) no_task ≡ x
    here =
        rw (v.entries, append_assoc pre (x ∷ xs) v.junk)
          (get_or-middle pre (xs ++ v.junk) x no_task)

-- If the array holds the tasks `xs`, `remove_task` answers whether one of them has the handler, and takes
-- the first one that has it out of the list.
pub remove_task-Holds :
    (t : Timer) (xs : List Task) (h : ℕ)
    → Holds t xs
    → ((remove_task h t).0 ≡ has_handler h xs) × Holds (remove_task h t).1 (drop_handler h xs)
unfolding remove_task
remove_task-Holds t xs h v = simp v.count (remove_task_from_lem h t [] xs v)

-- What `add_task` makes of the tasks: a new handler goes to the end, while fewer than `MAX_TASKS - 1` are
-- held.
pub added : ℕ → ℕ → Bool → List Task → Bool × List Task
added s h f xs =
    if has_handler h xs
    then (false, xs)
    else if length xs == max_tasks - 1
    then (false, xs)
    else (true, xs ++ (record { seconds = s; handler = h; forever = f } ∷ []))

set-end :
    (xs : List Task) (junk : List Task) (v : Task)
    → 0 < length junk
    → (rest : List Task) × (set (xs ++ junk) (length xs) v ≡ (xs ++ (v ∷ [])) ++ rest)
      × (length rest + 1 ≡ length junk)
set-end xs [] v h = absurd (omega arith)
set-end xs (j ∷ junk) v h =
    (junk, set-middle xs junk j v ∙ sym (append_assoc xs (v ∷ []) junk), omega arith)

appended-Holds :
    (t : Timer) (xs : List Task) (v : Task)
    → Holds t xs
    → length xs < max_tasks - 1
    → Holds
        (record t { tasks = set t.tasks t.tasks_number v; tasks_number = t.tasks_number + 1 })
        (xs ++ (v ∷ []))
appended-Holds t xs v h small =
    let (rest, e, l) = set-end xs h.junk v (omega (arith, h.room)) in
    record {
      junk = rest;
      entries = rw (h.count, h.entries) e;
      count = omega (arith, h.count, length-append xs (v ∷ []));
      room = omega (arith, l, h.room, length-append xs (v ∷ []));
    }

-- If the array holds fewer than `MAX_TASKS` tasks `xs`, `add_task` refuses a handler that is there already,
-- and any if `MAX_TASKS - 1` tasks are held, and else appends the task.
pub add_task-Holds :
    (t : Timer) (xs : List Task) (s h : ℕ) (f : Bool)
    → Holds t xs
    → length xs < max_tasks
    → ((add_task s h f t).0 ≡ (added s h f xs).0) × Holds (add_task s h f t).1 (added s h f xs).1
unfolding add_task added
add_task-Holds t xs s h f v small = elim (Bool-cases (has_handler h xs)) [
  | inl there ↦ rw (contains-Holds t xs h v, there) (refl, v)
  | inr new ↦ elim (Bool-cases (length xs == max_tasks - 1)) [
    | inl full ↦
        let full' : (t.tasks_number == max_tasks - 1) ≡ true = rw v.count full in
        rw (contains-Holds t xs h v, new, full, full') (refl, v)
    | inr space ↦
        let space' : (t.tasks_number == max_tasks - 1) ≡ false = rw v.count space in
        rw (contains-Holds t xs h v, new, space, space')
          (refl, appended-Holds t xs _ v (ground arith))
  ]
]
