-- ===== src/Userland/Stdio/Scanned.antt =====
-- A number that was printed is scanned back.
use so_realtime.Prelude.{
  ℕ, suc, ◌^◌, ◌<◌, ◌≡◌, refl, false, inl, inr, List, [], ◌∷◌, length, drop, drop-append,
  append-nil, ltb, ◌==◌, arith, UnlessFault, UnlessFault-if, UnlessFault-bind, ◌||◌, get_or,
  Bool-cases, inl, inr, true, ◌≤◌, zero, ◌+◌, ◌++◌, ◌≢◌, done,
}
use so_realtime.Userland.Ctype.{isspace}
use so_realtime.Userland.Strings.{strchr}
use so_realtime.Userland.Numbers.{print_dec, read_dec}
use so_realtime.Userland.Numbers.Decimal.{read_dec-print_dec, print_dec-IsNumeral, IsNumeral}
use so_realtime.Syscalls.{stderr}
use so_realtime.Userland.Stdio.Printed.{vfprintf-ends}
use so_realtime.Userland.Stdio.{
  Arg, Ending, Stopped, int, is_scanf_format, read_arg, skip_spaces, complain, finish, scan_from,
  sscanf, fprintf,
}

-- "%d"
abbrev pub decimal_format : List ℕ
decimal_format = b'%' ∷ b'd' ∷ []

-- Nothing is skipped in front of a number.
skip_spaces-IsNumeral : (cs : List ℕ) → IsNumeral cs → (0 < length cs) × (skip_spaces cs ≡ cs)
unfolding skip_spaces isspace
skip_spaces-IsNumeral [] h = absurd h
skip_spaces-IsNumeral (c ∷ cs) (inl h) = (omega arith, ground arith)
skip_spaces-IsNumeral (c ∷ cs) (inr h) = (omega arith, ground arith)

drop-length : (cs : List ℕ) → drop (length cs) cs ≡ []
drop-length cs = rw (append-nil cs) at (drop-append cs [])

scan_step :
    (fuel number : ℕ) (cs : List ℕ)
    → 0 < length cs
    → skip_spaces cs ≡ cs
    → read_dec cs ≡ (number, length cs)
    → scan_from (suc (suc fuel)) cs decimal_format 0 [] ≡ done (1, int number ∷ [], Ending.silent)
unfolding scan_from skip_spaces is_scanf_format isspace read_arg finish strchr
scan_step fuel number cs h k r =
    let more : (length cs == 0) ≡ false = ground arith in
    let enough : ltb (length cs) (length cs) ≡ false = ground arith in
    rw (more, k, r, more, enough, drop-length cs) refl

-- A scan that ends without a message shows nothing.
pub sscanf-silent :
    (buffer fmt : List ℕ) (read : ℕ) (values : List Arg)
    → scan_from (length fmt + 1) buffer fmt 0 [] ≡ done (read, values, Ending.silent)
    → sscanf buffer fmt ≡ done (read, values, [])
unfolding sscanf complain
sscanf-silent buffer fmt read values h = rw h refl

-- `sscanf` with "%d" of what `print_dec` wrote for an `int` converts one number, and stores that `int`.
pub sscanf-print_dec :
    (num : ℕ) → num < 2 ^ 32 → sscanf (print_dec num) decimal_format ≡ done (1, int num ∷ [], [])
sscanf-print_dec num h =
    let (more, whole) = skip_spaces-IsNumeral (print_dec num) (print_dec-IsNumeral num) in
    let back = rw (append-nil (print_dec num)) at (read_dec-print_dec num [] h tt) in
    sscanf-silent (print_dec num) decimal_format 1 (int num ∷ [])
      (scan_step 1 num (print_dec num) more whole back)

skip_spaces-le : (cs : List ℕ) → length (skip_spaces cs) ≤ length cs
unfolding skip_spaces
skip_spaces-le [] = omega arith
skip_spaces-le (c ∷ cs) = elim (Bool-cases (isspace c)) [
  | inl e ↦ rw e (omega (arith, skip_spaces-le cs))
  | inr e ↦ rw e (omega arith)
]

drop-lt : (n : ℕ) (cs : List ℕ) → 0 < length cs → length (drop (suc n) cs) < length cs
drop-lt n [] h = absurd (omega arith)
drop-lt n (c ∷ cs) h = omega (arith, drop-le n cs)
  where
    drop-le : (n : ℕ) (cs : List ℕ) → length (drop n cs) ≤ length cs
    drop-le zero cs = omega arith
    drop-le (suc n) [] = omega arith
    drop-le (suc n) (c ∷ cs) = omega (arith, drop-le n cs)

get_or-nonempty : (cs : List ℕ) (c : ℕ) → (get_or cs 0 0 == c) ≡ true → c ≢ 0 → 0 < length cs
get_or-nonempty [] c h ne = absurd (ne (ground arith))
get_or-nonempty (d ∷ cs) c h ne = omega arith

scan_from-ends :
    (fuel : ℕ) (buffer fmt : List ℕ) (read : ℕ) (values : List Arg)
    → length fmt < fuel
    → UnlessFault (λ _. Unit {0}) (scan_from fuel buffer fmt read values)
unfolding scan_from
scan_from-ends zero buffer fmt read values h = absurd (omega arith)
scan_from-ends (suc fuel) buffer fmt read values h =
    let Any = λ (r : Stopped). Unit {0} in
    let f = skip_spaces fmt in
    let b = skip_spaces buffer in
    let arg = read_arg b (get_or f 1 0) (get_or f 2 0) in
    UnlessFault-if Any (length buffer == 0 || length fmt == 0) _ _ (λ _. tt)
      (λ _.
        UnlessFault-if Any (get_or f 0 0 == b'%') _ _
          (λ e.
            UnlessFault-if Any (is_scanf_format (get_or f 1 0)) _ _
              (λ _.
                UnlessFault-if Any (arg.1 == 0) _ _ (λ _. tt)
                  (λ _.
                    UnlessFault-if Any (ltb (length b) arg.1) _ _ (λ _. tt)
                      (λ _.
                        scan_from-ends fuel (drop arg.1 b) (drop 2 f) (read + 1)
                          (values ++ (arg.0 ∷ []))
                          (omega (
                            arith,
                            skip_spaces-le fmt,
                            drop-lt 1 f (get_or-nonempty f b'%' e (λ z. absurd (omega arith))),
                          )))))
              (λ _. tt))
          (λ _.
            UnlessFault-if Any (get_or b 0 0 == get_or f 0 0) _ _
              (λ _.
                UnlessFault-if Any (length f == 0) _ _ (λ _. tt)
                  (λ e.
                    scan_from-ends fuel (drop 1 b) (drop 1 f) read values
                      (omega (arith, skip_spaces-le fmt, drop-lt 0 f (ground arith)))))
              (λ _. tt)))

complain-ends : (format : List ℕ) (end : Ending) → UnlessFault (λ _. Unit {0}) (complain format end)
unfolding complain fprintf
complain-ends format Ending.silent = tt
complain-ends format Ending.no_match = vfprintf-ends stderr _ _
complain-ends format (Ending.bad_option c) = vfprintf-ends stderr _ _
complain-ends format (Ending.no_value c) = vfprintf-ends stderr _ _
complain-ends format (Ending.no_character c) = vfprintf-ends stderr _ _

-- `sscanf` on any text and any format returns or faults, for the rounds given are enough: each passes a
-- character of the format.
pub sscanf-ends : (buffer fmt : List ℕ) → UnlessFault (λ _. Unit {0}) (sscanf buffer fmt)
unfolding sscanf
sscanf-ends buffer fmt =
    UnlessFault-bind (λ _. Unit {0}) (λ _. Unit {0}) (scan_from (length fmt + 1) buffer fmt 0 []) _
      (λ r d.
        UnlessFault-bind (λ _. Unit {0}) (λ _. Unit {0}) (complain fmt r.2) _ (λ w e. tt)
          (complain-ends fmt r.2))
      (scan_from-ends (length fmt + 1) buffer fmt 0 [] (omega arith))
