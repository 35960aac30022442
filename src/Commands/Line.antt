-- ===== src/Commands/Line.antt =====
-- The words of a command line that sets the clock.
use so_realtime.Prelude.{ℕ, ◌<◌, ◌≡◌, ◌⊎◌, inl, inr, false, ◌≢◌, List, [], ◌∷◌, length, All, arith}
use so_realtime.Userland.Ctype.{isspace}
use so_realtime.Userland.Numbers.{print_dec}
use so_realtime.Userland.Numbers.Digits.{IsDecimal}
use so_realtime.Userland.Numbers.Decimal.{print_dec-All, print_dec-IsNumeral, IsNumeral}
use so_realtime.Shell.Args.{IsWord}

-- `SET_TIME`
abbrev pub set_time_id : ℕ
set_time_id = 7

pub print_dec-IsWord : (n : ℕ) → IsWord (print_dec n)
unfolding isspace
print_dec-IsWord n =
    (nonempty (print_dec n) (print_dec-IsNumeral n), words (print_dec n) (print_dec-All n))
  where
    nonempty : (cs : List ℕ) → IsNumeral cs → 0 < length cs
    nonempty [] h = absurd h
    nonempty (c ∷ cs) h = omega arith

    words :
        (cs : List ℕ)
        → All (λ c. IsDecimal c ⊎ (c ≡ b'-')) cs
        → All (λ c. (isspace c ≡ false) × (c ≢ 0)) cs
    words [] h = tt
    words (c ∷ cs) (inl d, h) = ((ground arith, omega arith), words cs h)
    words (c ∷ cs) (inr d, h) = ((ground arith, omega arith), words cs h)
