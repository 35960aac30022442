-- ===== src/Userland/Stdio/Fitting.antt =====
-- That a call of `printf` whose arguments fit its format prints.
use so_realtime.Prelude.{
  ℕ, ltb, ◌<◌, ◌^◌, ◌%◌, ◌≡◌, ◌≢◌, refl, true, inl, inr, ◌&&◌, ◌||◌, Bool, not, Bool-cases, List,
  [], ◌∷◌, drop, All, ◌==◌, if◌then◌else◌, arith, Outcome, done, Ensures, Ensures-bind,
}
use so_realtime.Syscalls.{stdout}
use so_realtime.Userland.Numbers.{print_hex, print_oct}
use so_realtime.Userland.Stdio.{
  Written, then_write, fputc, Arg, str, int, put_bin, print_arg, before, is_printf_format, vfprintf,
  printf,
}
use so_realtime.Userland.Stdio.Printed.{
  Counts, then_write-Counts, fputc_lem, fputs_lem, put_number-Counts, put_dec-Counts,
  put_bin-Counts,
}

-- The conversion of a number: "%x", "%d" and "%o", "%b" of a number with at most 19 binary digits, and "%c"
-- of a character that is not 0.
abbrev pub converts_number : ℕ → ℕ → Bool
converts_number option n =
    option == b'x'
    || option == b'd'
    || option == b'o'
    || (option == b'b' && ltb n (2 ^ 19))
    || (option == b'c' && not (n % 256 == 0))

-- The first argument is of the type that the conversion asks for; a text holds no 0.
abbrev pub Converts : ℕ → List Arg → Type 0
Converts option [] = ⊥
Converts option (str s ∷ args) = ((option == b's') ≡ true) × All (λ c. c ≢ 0) s
Converts option (int n ∷ args) = converts_number option n ≡ true

-- The arguments are those that the conversions of the format ask for, in order; more of them do no harm.
-- The format holds no 0.
abbrev pub FitsFormat : List ℕ → List Arg → Type 0
FitsFormat [] args = Unit
FitsFormat (c ∷ []) args = c ≢ 0
FitsFormat (c ∷ option ∷ fmt) args =
    let converted = Converts option args × FitsFormat fmt (drop 1 args) in
    let plain = (c ≢ 0) × FitsFormat (option ∷ fmt) args in
    if c == b'%' && is_printf_format option then converted else plain

-- What is printed is counted, and one argument is taken.
abbrev Taken : List Arg → Written × List Arg → Type 0
Taken args r = Counts r.0 × (r.1 ≡ drop 1 args)

print_arg-Converts :
    (option : ℕ) (args : List Arg)
    → Converts option args
    → Ensures (Taken args) (print_arg stdout args option)
unfolding print_arg print_hex print_oct
print_arg-Converts option [] h = absurd h
print_arg-Converts option (str s ∷ args) (e, h) = rw (e, fputs_lem s h) (refl, refl)
print_arg-Converts option (int n ∷ args) h = elim (Bool-cases (option == b'x')) [
  | inl x ↦ rw x (put_number-Counts n 16, refl)
  | inr x ↦ rw x (elim (Bool-cases (option == b'd')) [
    | inl d ↦ rw d (put_dec-Counts n, refl)
    | inr d ↦ rw d (elim (Bool-cases (option == b'o')) [
      | inl o ↦ rw o (put_number-Counts n 8, refl)
      | inr o ↦ rw o (elim (Bool-cases (option == b'b')) [
        | inl b ↦
            let small : n < 2 ^ 19 = ground arith in
            rw b (
              Ensures-bind Counts (Taken (int n ∷ args)) (put_bin stdout n) _ (λ w d. (d, refl))
                (put_bin-Counts n small))
        | inr b ↦
            let c : (option == b'c') ≡ true = ground arith in
            let shown : n % 256 ≢ 0 = λ z. ground arith in
            rw (b, c, fputc_lem (n % 256) shown) (refl, refl)
      ])
    ])
  ])
]

before-Ensures :
    (a : Written) (m : Outcome Written) → Counts a → Ensures Counts m → Ensures Counts (before a m)
before-Ensures a m h k =
    Ensures-bind Counts Counts m (λ b. done (then_write a b)) (λ b d. then_write-Counts a b h d) k

vfprintf-FitsFormat :
    (fmt : List ℕ) (args : List Arg)
    → FitsFormat fmt args
    → Ensures Counts (vfprintf stdout fmt args)
unfolding vfprintf
vfprintf-FitsFormat [] args h = refl
vfprintf-FitsFormat (c ∷ []) args h = rw (fputc_lem c h) refl
vfprintf-FitsFormat (c ∷ option ∷ fmt) args h =
    elim (Bool-cases (c == b'%' && is_printf_format option)) [
      | inl e ↦
          let (converts, rest) = rw e at h in
          rw e (
            Ensures-bind (Taken args) Counts (print_arg stdout args option)
              (λ r. before r.0 (vfprintf stdout fmt r.1))
              (λ r (counts, left).
                before-Ensures r.0 (vfprintf stdout fmt r.1) counts
                  (rw left (vfprintf-FitsFormat fmt (drop 1 args) rest)))
              (print_arg-Converts option args converts))
      | inr e ↦
          let (real, rest) = rw e at h in
          rw e (
            before-Ensures (fputc stdout c) (vfprintf stdout (option ∷ fmt) args)
              (rw (fputc_lem c real) refl) (vfprintf-FitsFormat (option ∷ fmt) args rest))
    ]

-- A call of `printf` whose arguments have the types that its format asks for comes to no fault: it prints,
-- and answers the number of the characters that it wrote. Neither the format nor a text among the
-- arguments holds a 0, no character to print is 0, and no number to print in base 2 has more than 19 digits.
pub printf-FitsFormat :
    (fmt : List ℕ) (args : List Arg) → FitsFormat fmt args → Ensures Counts (printf fmt args)
unfolding printf
printf-FitsFormat fmt args h = vfprintf-FitsFormat fmt args h
