-- ===== src/Fractals/Loops.antt =====
-- The loops over the rows and columns of the screen, and the image that they leave.
use so_realtime.Prelude.{ℕ, zero, suc, ◌+◌, ◌<◌, ◌≡◌, ◌⊎◌, inl, inr, Bool-cases, ltb, arith}

-- The body for each number from `now` on, in order, on the rounds left.
unfoldable pub loop_from {ℓ} : {S : Type ℓ} (body : ℕ → S → S) (now rounds : ℕ) → S → S
loop_from body now zero state = state
loop_from body now (suc rounds) state = loop_from body (now + 1) rounds (body now state)

-- The rule for what every round adds and no round takes away: `Kept` is what the rounds need and keep, and
-- `At j` is what round `j` sets up and the other rounds keep.
pub loop_from-each {ℓ} :
    {S : Type ℓ} (Kept : S → Type 0) (At : ℕ → S → Type 0) (body : ℕ → S → S) (end : ℕ)
    → ((i : ℕ) (s : S) → i < end → Kept s → Kept (body i s) × At i (body i s))
    → ((i j : ℕ) (s : S) → i < end → j < i → Kept s → At j s → At j (body i s))
    → (n i : ℕ) (s : S) → i + n ≡ end
    → Kept s
    → ((j : ℕ) → j < i → At j s)
    → Kept (loop_from body i n s) × ((j : ℕ) → j < end → At j (loop_from body i n s))
unfolding loop_from
loop_from-each Kept At body end sets keeps zero i s e k done = (k, λ j h. done j (omega arith))
loop_from-each Kept At body end sets keeps (suc n) i s e k done =
    let (k', a) = sets i s (omega arith) k in
    loop_from-each Kept At body end sets keeps n (i + 1) (body i s) (omega arith) k' (λ j h.
      elim (below j h) [ inl lt ↦ keeps i j s (omega arith) lt k (done j lt) | inr eq ↦ rw eq a ])
  where
    below : (j : ℕ) → j < i + 1 → (j < i) ⊎ (j ≡ i)
    below j h = elim (Bool-cases (ltb j i)) [
      | inl e ↦ inl (ground arith)
      | inr e ↦ inr (ground arith)
    ]
