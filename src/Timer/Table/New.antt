-- ===== src/Timer/Table/New.antt =====
-- A task that is added and removed again.
use so_realtime.Prelude.{
  ℕ, ◌-◌, ◌<◌, ◌≡◌, ◌≢◌, refl, ap, Bool, true, false, Bool-cases, inl, inr, List, [], ◌∷◌, ◌++◌,
  length, ◌==◌, arith,
}
use so_realtime.Timer.{Task, max_tasks}
use so_realtime.Timer.Table.{has_handler, drop_handler, added}

-- A handler that is not there is added to the end, while there is room.
pub added-new :
    (seconds handler : ℕ) (forever : Bool) (xs : List Task)
    → has_handler handler xs ≡ false
    → length xs < max_tasks - 1
    → added seconds handler forever xs
      ≡ (true, xs ++ (record { seconds = seconds; handler = handler; forever = forever } ∷ []))
unfolding added
added-new seconds handler forever xs new room =
    let space : (length xs == max_tasks - 1) ≡ false = ground arith in rw (new, space) refl

pub has_handler-new :
    (x : Task) (xs : List Task)
    → has_handler x.handler xs ≡ false
    → (has_handler x.handler (xs ++ (x ∷ [])) ≡ true)
      × (drop_handler x.handler (xs ++ (x ∷ [])) ≡ xs)
unfolding has_handler drop_handler
has_handler-new x [] h = let e : (x.handler == x.handler) ≡ true = ground arith in rw e (refl, refl)
has_handler-new x (y ∷ xs) h = elim (Bool-cases (y.handler == x.handler)) [
  | inl e ↦ absurd (cc (rw e at h))
  | inr e ↦ let (a, b) = has_handler-new x xs (rw e at h) in rw e (a, ap (λ l. y ∷ l) b)
]

pub drop_handler-absent :
    (handler : ℕ) (xs : List Task) → has_handler handler xs ≡ false → drop_handler handler xs ≡ xs
unfolding has_handler drop_handler
drop_handler-absent handler [] h = refl
drop_handler-absent handler (y ∷ xs) h = elim (Bool-cases (y.handler == handler)) [
  | inl e ↦ absurd (cc (rw e at h))
  | inr e ↦ rw e (ap (λ l. y ∷ l) (drop_handler-absent handler xs (rw e at h)))
]

-- No task of a list of one has another handler.
pub has_handler-other :
    (handler : ℕ) (x : Task) → x.handler ≢ handler → has_handler handler (x ∷ []) ≡ false
unfolding has_handler
has_handler-other handler x h = let e : (x.handler == handler) ≡ false = ground arith in rw e refl
