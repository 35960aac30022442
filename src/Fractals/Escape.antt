-- ===== src/Fractals/Escape.antt =====
-- Where the orbit of a point leaves the disk of radius 2, and that the inner loops find it.
use so_realtime.Prelude.{
  ℕ, zero, suc, ◌+◌, ◌<◌, ◌≡◌, ◌⊎◌, inl, inr, refl, Bool, true, false, Bool-cases, ◌==◌, arith,
}
use so_realtime.Fractals.{Doubles, is_far, next_re, next_im, mandelbrot_loop, julia_loop}

-- `n` is the first number below the limit at which the test holds, or it is the limit.
abbrev pub FirstBelow : ℕ → (ℕ → Bool) → ℕ → Type 0
FirstBelow limit test n =
    ((k : ℕ) → k < n → test k ≡ false) × ((n ≡ limit) ⊎ ((n < limit) × (test n ≡ true)))

FirstBelow-zero : (limit : ℕ) (test : ℕ → Bool) → test 0 ≡ true → FirstBelow (suc limit) test 0
FirstBelow-zero limit test h = (λ k lt. absurd (omega arith), inr (omega arith, h))

FirstBelow-suc :
    (limit : ℕ) (test : ℕ → Bool) (n : ℕ)
    → test 0 ≡ false
    → FirstBelow limit (λ k. test (suc k)) n
    → FirstBelow (suc limit) test (suc n)
FirstBelow-suc limit test n h (before, at) =
    (earlier, elim at [ inl e ↦ inl (omega arith) | inr e ↦ inr (omega (arith, e.0), e.1) ])
  where
    earlier : (k : ℕ) → k < suc n → test k ≡ false
    earlier zero lt = h
    earlier (suc k) lt = before k (omega arith)

module _ {D : Type 0} (fl : Doubles D) (c_re c_im : D) where
  -- The test for the point that `k` steps of z * z + c lead to.
  unfoldable pub far_after : ℕ → D → D → Bool
  far_after zero re im = is_far fl re im
  far_after (suc k) re im = far_after k (next_re fl c_re re im) (next_im fl c_im re im)

  pub mandelbrot_loop-FirstBelow :
      (left n : ℕ) (re im : D)
      → (k : ℕ) × FirstBelow left (λ j. far_after j re im) k
        × (mandelbrot_loop fl left n c_re c_im re im ≡ (k == left, n + k))
  unfolding mandelbrot_loop far_after
  mandelbrot_loop-FirstBelow zero n re im =
      (0, (λ k h. absurd (omega arith), inl refl), ground arith)
  mandelbrot_loop-FirstBelow (suc left) n re im = elim (Bool-cases (is_far fl re im)) [
    | inl far ↦ (0, FirstBelow-zero left (λ j. far_after j re im) far, rw far (ground arith))
    | inr near ↦
        let (k, first, e) =
          mandelbrot_loop-FirstBelow left (n + 1) (next_re fl c_re re im) (next_im fl c_im re im) in
        (
          suc k,
          FirstBelow-suc left (λ j. far_after j re im) k near first,
          rw (near, e) (ground arith),
        )
  ]

  pub julia_loop-FirstBelow :
      (left i : ℕ) (re im : D)
      → (k : ℕ) × FirstBelow left (λ j. far_after (suc j) re im) k
        × (julia_loop fl left i c_re c_im re im ≡ i + k)
  unfolding julia_loop far_after
  julia_loop-FirstBelow zero i re im = (0, (λ k h. absurd (omega arith), inl refl), omega arith)
  julia_loop-FirstBelow (suc left) i re im =
      let re' = next_re fl c_re re im in
      let im' = next_im fl c_im re im in
      elim (Bool-cases (is_far fl re' im')) [
        | inl far ↦
            (0, FirstBelow-zero left (λ j. far_after (suc j) re im) far, rw far (omega arith))
        | inr near ↦
            let (k, first, e) = julia_loop-FirstBelow left (i + 1) re' im' in
            (
              suc k,
              FirstBelow-suc left (λ j. far_after (suc j) re im) k near first,
              rw (near, e) (omega arith),
            )
      ]
