-- ===== src/Scheduler/Ring.antt =====
-- Which process comes next.
use so_realtime.Prelude.{
  ℕ, zero, suc, ◌<◌, ◌≡◌, ◌≢◌, ◌∙◌, ap, refl, true, false, inl, inr, Bool-cases, List, [], ◌∷◌,
  ◌++◌, length, All, ◌==◌, if◌then◌else◌, arith, done, timeout, Ensures,
}
use so_realtime.Scheduler.{
  ProcessNode, Scheduler, is_ready, set_user_stack, switch_user_to_kernel, ready_from,
  get_next_process, switch_kernel_to_user,
}

-- Each node leads to the one behind it in the list, from `at` on; none is NULL.
abbrev pub Linked : (ℕ → ProcessNode) → ℕ → List ℕ → Type 0
Linked nodes at [] = Unit
Linked nodes at (x ∷ xs) = ((nodes at).next ≡ x) × (x ≢ 0) × Linked nodes x xs

-- The process of the node is not ready.
abbrev pub Waits : (ℕ → ProcessNode) → ℕ → Type 0
Waits nodes x = is_ready (nodes x).process.process_state ≡ false

module _ (nodes : ℕ → ProcessNode) where
  ready_from-Linked :
      (fuel at : ℕ) (xs : List ℕ) (y : ℕ)
      → length xs < fuel
      → Linked nodes at (xs ++ (y ∷ []))
      → All (Waits nodes) xs
      → is_ready (nodes y).process.process_state ≡ true
      → ready_from fuel nodes (nodes at).next ≡ done (nodes y).process.user_stack
  unfolding ready_from
  ready_from-Linked zero at xs y h l w r = absurd (omega arith)
  ready_from-Linked (suc fuel) at [] y h (e, n, l) w r =
      let real : (y == 0) ≡ false = ground arith in rw (e, real, r) refl
  ready_from-Linked (suc fuel) at (x ∷ xs) y h (e, n, l) (w, ws) r =
      let real : (x == 0) ≡ false = ground arith in
      rw (e, real, w) (ready_from-Linked fuel x xs y (omega arith) l ws r)

  -- Where all nodes on the way wait and the way never leaves them, the search goes on for ever.
  ready_from-timeout :
      (InRing : ℕ → Type 0)
      → ((x : ℕ) → InRing x → (x ≢ 0) × Waits nodes x × InRing (nodes x).next)
      → (fuel x : ℕ) → InRing x
      → ready_from fuel nodes x ≡ timeout
  unfolding ready_from
  ready_from-timeout InRing ring zero x h = refl
  ready_from-timeout InRing ring (suc fuel) x h =
      let (n, w, i) = ring x h in
      let real : (x == 0) ≡ false = ground arith in
      rw (real, w) (ready_from-timeout InRing ring fuel (nodes x).next i)

module _ (nodes : ℕ → ProcessNode) (address esp : ℕ) where
  -- Storing a stack changes neither the ring nor the states.
  set_user_stack-next : (q : ℕ) → (set_user_stack address esp nodes q).next ≡ (nodes q).next
  set_user_stack-next q = elim (Bool-cases (q == address)) [ inl e ↦ rw e refl | inr e ↦ rw e refl ]

  set_user_stack-state :
      (q : ℕ)
      → (set_user_stack address esp nodes q).process.process_state ≡ (nodes q).process.process_state
  set_user_stack-state q = elim (Bool-cases (q == address)) [
    | inl e ↦ rw e refl
    | inr e ↦ rw e refl
  ]

  set_user_stack-Linked :
      (at : ℕ) (xs : List ℕ) → Linked nodes at xs → Linked (set_user_stack address esp nodes) at xs
  set_user_stack-Linked at [] l = tt
  set_user_stack-Linked at (x ∷ xs) (e, n, l) =
      (set_user_stack-next at ∙ e, n, set_user_stack-Linked x xs l)

  set_user_stack-Waits :
      (xs : List ℕ) → All (Waits nodes) xs → All (Waits (set_user_stack address esp nodes)) xs
  set_user_stack-Waits [] w = tt
  set_user_stack-Waits (x ∷ xs) (w, ws) =
      (ap is_ready (set_user_stack-state x) ∙ w, set_user_stack-Waits xs ws)

-- A switch to the kernel answers the current process's kernel stack; the switch back then answers the
-- stack of the first process that is ready behind the current one in the ring: the stack that was left,
-- if that is the current process itself, and else the one that the process had. The way there has fewer
-- nodes than the rounds that are given, none of them NULL, and no process on it is ready.
pub switch_lem :
    (s : Scheduler) (esp fuel : ℕ) (xs : List ℕ) (y : ℕ)
    → s.current_process_node ≢ 0
    → length xs < fuel
    → Linked s.nodes s.current_process_node (xs ++ (y ∷ []))
    → All (Waits s.nodes) xs
    → is_ready (s.nodes y).process.process_state ≡ true
    → Ensures
        (λ r.
          (r.0 ≡ (s.nodes s.current_process_node).process.kernel_stack)
          × (switch_kernel_to_user fuel r.1
              ≡ done (if y == s.current_process_node then esp else (s.nodes y).process.user_stack)))
        (switch_user_to_kernel esp s)
unfolding switch_user_to_kernel switch_kernel_to_user get_next_process
switch_lem s esp fuel xs y real few l w r =
    let here = s.current_process_node in
    let nodes = set_user_stack here esp s.nodes in
    let set : (here == 0) ≡ false = ground arith in
    let found =
      ready_from-Linked nodes fuel here xs y few
        (set_user_stack-Linked s.nodes here esp here (xs ++ (y ∷ [])) l)
        (set_user_stack-Waits s.nodes here esp xs w)
        (ap is_ready (set_user_stack-state s.nodes here esp y) ∙ r) in
    rw set (refl, rw set (found ∙ ap (λ a. done a) (stack y)))
  where
    stack :
        (q : ℕ)
        → (set_user_stack s.current_process_node esp s.nodes q).process.user_stack
          ≡ (if q == s.current_process_node then esp else (s.nodes q).process.user_stack)
    stack q = elim (Bool-cases (q == s.current_process_node)) [
      | inl e ↦ rw e refl
      | inr e ↦ rw e refl
    ]

-- If each node of the ring leads to one of them and none of their processes is ready, the switch back to a
-- user never ends, however many rounds it has.
switch_kernel_to_user-timeout :
    (s : Scheduler) (InRing : ℕ → Type 0) (fuel : ℕ)
    → ((x : ℕ) → InRing x → (x ≢ 0) × Waits s.nodes x × InRing (s.nodes x).next)
    → InRing s.current_process_node
    → switch_kernel_to_user fuel s ≡ timeout
unfolding switch_kernel_to_user get_next_process
switch_kernel_to_user-timeout s InRing fuel ring h =
    let (n, w, i) = ring s.current_process_node h in
    let real : (s.current_process_node == 0) ≡ false = ground arith in
    rw real (ready_from-timeout s.nodes InRing ring fuel (s.nodes s.current_process_node).next i)
