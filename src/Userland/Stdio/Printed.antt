-- ===== src/Userland/Stdio/Printed.antt =====
-- What `printf` counts.
use so_realtime.Prelude.{
  ℕ, zero, suc, ◌/◌, ◌^◌, ◌≤◌, ◌<◌, ◌≡◌, ◌≢◌, refl, ap, ◌&&◌, Bool, false, true, ltb, Bool-cases,
  inl, inr, List, [], ◌∷◌, length, length-append, take, All, ◌==◌, arith, Outcome, UnlessFault,
  UnlessFault-bind, UnlessFault-if, Ensures, Ensures-bind,
}
use mathlib.Core.List.{reverse}
use native.Mathlib.Nat.{pow-suc}
use so_realtime.Syscalls.{stdout}
use so_realtime.Syscalls.Output.{sys_write_lem}
use so_realtime.Userland.Numbers.{
  num_to_base, print_bin, print_dec, is_negative, negate32, low_digits,
}
use so_realtime.Userland.Numbers.Digits.{num_to_base-reverse}
use so_realtime.Userland.Numbers.Decimal.{length-reverse}
use so_realtime.Userland.Stdio.{
  Written, then_write, write, fputc, fputs, fputsn, Arg, str, int, put_number, put_dec, put_bin,
  digits_size, print_arg, is_printf_format, vfprintf,
}

-- The result is the number of the characters that were written.
abbrev pub Counts : Written → Type 0
Counts w = w.1 ≡ length w.0

pub then_write-Counts : (a b : Written) → Counts a → Counts b → Counts (then_write a b)
then_write-Counts a b h k = omega (arith, length-append a.0 b.0)

write_lem :
    (text : List ℕ) → length text < 2 ^ 31 → write stdout text (length text) ≡ (text, length text)
unfolding write
write_lem text h = rw (write, sys_write_lem text (length text) h, take_all text) refl
  where
    take_all : (xs : List ℕ) → take (length xs) xs ≡ xs
    take_all [] = refl
    take_all (x ∷ xs) = ap (λ l. x ∷ l) (take_all xs)

pub fputc_lem : (c : ℕ) → c ≢ 0 → fputc stdout c ≡ (c ∷ [], 1)
unfolding fputc
fputc_lem c h =
    let e : (c == 0) ≡ false = ground arith in rw (e, write_lem (c ∷ []) (omega arith)) refl

pub fputs_lem : (s : List ℕ) → All (λ c. c ≢ 0) s → fputs stdout s ≡ (s, length s)
unfolding fputs
fputs_lem [] h = refl
fputs_lem (c ∷ s) h =
    rw (fputc_lem c h.0, fputs_lem s h.1) (ap (λ (n : ℕ). (c ∷ s, n)) (omega arith))

-- At most 32 digits are written for a number.
low_digits_bound : (fuel base value : ℕ) → length (low_digits fuel base value) ≤ fuel
unfolding low_digits
low_digits_bound zero base value = omega arith
low_digits_bound (suc fuel) base value = ground (arith, low_digits_bound fuel base (value / base))

pub put_number-Counts : (value base : ℕ) → Counts (put_number stdout (num_to_base value base))
unfolding put_number fputsn
put_number-Counts value base =
    let few = low_digits_bound 32 base value in
    let same = length-reverse (low_digits 32 base value) in
    rw
      (
        num_to_base-reverse value base,
        write_lem (reverse (low_digits 32 base value)) (omega (arith, few, same)),
      )
      refl

-- A number below 2^k has at most k digits in base 2.
low_digits-short : (fuel k value : ℕ) → value < 2 ^ suc k → length (low_digits fuel 2 value) ≤ suc k
unfolding low_digits
low_digits-short zero k value h = omega arith
low_digits-short (suc fuel) zero value h =
    let last : (value / 2 == 0) ≡ true = ground arith in rw last (omega arith)
low_digits-short (suc fuel) (suc k) value h =
    let half : value / 2 < 2 ^ suc k = omega (arith, rw (pow-suc 2 (suc k)) at h) in
    ground (arith, low_digits-short fuel k (value / 2) half)

-- `print_bin` of a number below 2^19 prints it.
pub put_bin-Counts : (num : ℕ) → num < 2 ^ 19 → Ensures Counts (put_bin stdout num)
unfolding put_bin print_bin
put_bin-Counts num h =
    let few = low_digits-short 32 18 num h in
    let same = length-reverse (low_digits 32 2 num) in
    let fits : ltb (length (num_to_base num 2)) digits_size ≡ true =
      rw (num_to_base-reverse num 2) (ground (arith, few, same)) in
    rw fits (put_number-Counts num 2)

pub put_dec-Counts : (num : ℕ) → Counts (put_dec stdout num)
unfolding put_dec
put_dec-Counts num = elim (Bool-cases (is_negative num)) [
  | inl neg ↦
      rw (neg, fputc_lem b'-' (λ e. absurd (omega arith)))
        (then_write-Counts (b'-' ∷ [], 1) (put_number stdout (num_to_base (negate32 num) 10)) refl
          (put_number-Counts (negate32 num) 10))
  | inr pos ↦ rw pos (put_number-Counts num 10)
]

-- At most 33 characters are printed in decimal.
pub print_dec_bound : (num : ℕ) → length (print_dec num) ≤ 33
unfolding print_dec
print_dec_bound num = elim (Bool-cases (is_negative num)) [
  | inl neg ↦ rw neg (omega (arith, digits (negate32 num)))
  | inr pos ↦ rw pos (omega (arith, digits num))
]
  where
    digits : (n : ℕ) → length (num_to_base n 10) ≤ 32
    digits n =
        rw (num_to_base-reverse n 10)
          (omega (arith, low_digits_bound 32 10 n, length-reverse (low_digits 32 10 n)))

-- A format without "%" is written without an argument.
pub vfprintf-Ensures :
    (fd : ℕ) (fmt : List ℕ) (args : List Arg)
    → All (λ c. c ≢ b'%') fmt
    → Ensures (λ _. Unit {0}) (vfprintf fd fmt args)
unfolding vfprintf
vfprintf-Ensures fd [] args h = tt
vfprintf-Ensures fd (c ∷ []) args h = tt
vfprintf-Ensures fd (c ∷ option ∷ fmt) args h =
    let plain : (c == b'%' && is_printf_format option) ≡ false = ground (arith, h.0) in
    rw plain (
      Ensures-bind (λ _. Unit {0}) (λ _. Unit {0}) (vfprintf fd (option ∷ fmt) args) _ (λ b d. tt)
        (vfprintf-Ensures fd (option ∷ fmt) args h.1))

put_bin-ends : (fd num : ℕ) → UnlessFault (λ _. Unit {0}) (put_bin fd num)
unfolding put_bin
put_bin-ends fd num =
    UnlessFault-if (λ _. Unit {0}) (ltb (length (print_bin num)) digits_size) _ _ (λ _. tt)
      (λ _. tt)

print_arg-ends :
    (fd : ℕ) (args : List Arg) (option : ℕ) → UnlessFault (λ _. Unit {0}) (print_arg fd args option)
unfolding print_arg
print_arg-ends fd [] option = tt
print_arg-ends fd (str s ∷ args) option =
    UnlessFault-if (λ _. Unit {0}) (option == b's') _ _ (λ _. tt) (λ _. tt)
print_arg-ends fd (int n ∷ args) option =
    let one = λ (test : Bool) (a b : Outcome (Written × List Arg)).
      UnlessFault-if (λ (r : Written × List Arg). Unit {0}) test a b in
    one (option == b'x') _ _ (λ _. tt)
      (λ _.
        one (option == b'd') _ _ (λ _. tt)
          (λ _.
            one (option == b'o') _ _ (λ _. tt)
              (λ _.
                one (option == b'b') _ _
                  (λ _.
                    UnlessFault-bind (λ _. Unit {0}) (λ _. Unit {0}) (put_bin fd n) _ (λ w d. tt)
                      (put_bin-ends fd n))
                  (λ _. one (option == b'c') _ _ (λ _. tt) (λ _. tt)))))

pub vfprintf-ends :
    (fd : ℕ) (fmt : List ℕ) (args : List Arg) → UnlessFault (λ _. Unit {0}) (vfprintf fd fmt args)
unfolding vfprintf
vfprintf-ends fd [] args = tt
vfprintf-ends fd (c ∷ []) args = tt
vfprintf-ends fd (c ∷ option ∷ fmt) args =
    let Any = λ (w : Written). Unit {0} in
    UnlessFault-if Any (c == b'%' && is_printf_format option) _ _
      (λ _.
        UnlessFault-bind (λ _. Unit {0}) Any (print_arg fd args option) _
          (λ r d.
            UnlessFault-bind Any Any (vfprintf fd fmt r.1) _ (λ b e. tt) (vfprintf-ends fd fmt r.1))
          (print_arg-ends fd args option))
      (λ _.
        UnlessFault-bind Any Any (vfprintf fd (option ∷ fmt) args) _ (λ b e. tt)
          (vfprintf-ends fd (option ∷ fmt) args))

-- What `print_dec` puts on the screen and answers: the text that Numbers gives, and its length.
pub put_dec_lem : (num : ℕ) → put_dec stdout num ≡ (print_dec num, length (print_dec num))
unfolding put_dec put_number fputsn print_dec
put_dec_lem num = elim (Bool-cases (is_negative num)) [
  | inl neg ↦
      rw
        (
          neg,
          fputc_lem b'-' (λ e. absurd (omega arith)),
          write_lem (num_to_base (negate32 num) 10) (num_to_base_bound (negate32 num)),
        )
        (ap (λ (n : ℕ). (b'-' ∷ num_to_base (negate32 num) 10, n)) (omega arith))
  | inr pos ↦ rw (pos, write_lem (num_to_base num 10) (num_to_base_bound num)) refl
]
  where
    num_to_base_bound : (value : ℕ) → length (num_to_base value 10) < 2 ^ 31
    num_to_base_bound value =
        let few = low_digits_bound 32 10 value in
        let same = length-reverse (low_digits 32 10 value) in
        rw (num_to_base-reverse value 10) (omega (arith, few, same))
