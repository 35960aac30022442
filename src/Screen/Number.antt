-- ===== src/Screen/Number.antt =====
-- The kernel's `putnumber` against the user library's `print_dec`.
use so_realtime.Prelude.{
  ℕ, zero, suc, ◌+◌, ◌/◌, ◌%◌, ◌^◌, ◌<◌, ◌≡◌, ◌≢◌, refl, sym, ap, ◌∙◌, List, [], ◌∷◌, ◌++◌, ltb,
  ◌==◌, true, false, arith, Bool-cases, inl, inr,
}
use mathlib.Core.List.{reverse, reverse-cons}
use native.Mathlib.Nat.{pow-suc}
use so_realtime.Userland.Numbers.{digit, low_digits, num_to_base, print_dec, is_negative, negate32}
use so_realtime.Userland.Numbers.Digits.{num_to_base-reverse}
use so_realtime.Screen.{count_digits, divided, digits_from, number_chars}

-- One digit more is the last digit of the number behind the digits of a tenth of it.
digits_from-snoc :
    (d n : ℕ) → digits_from (suc d) n ≡ digits_from d (n / 10) ++ ((n % 10 + b'0') ∷ [])
unfolding digits_from divided
digits_from-snoc zero n = refl
digits_from-snoc (suc d) n = ap (λ l. (divided d (n / 10) % 10 + b'0') ∷ l) (digits_from-snoc d n)

count_digits-suc :
    (fuel n : ℕ) → 0 < n / 10 → count_digits (suc fuel) n ≡ suc (count_digits fuel (n / 10))
unfolding count_digits
count_digits-suc fuel n h = let e : ltb 0 (n / 10) ≡ true = ground arith in rw e (omega arith)

count_digits-one : (fuel n : ℕ) → n < 10 → count_digits fuel n ≡ 1
unfolding count_digits
count_digits-one zero n h = refl
count_digits-one (suc fuel) n h = let e : ltb 0 (n / 10) ≡ false = ground arith in rw e

digits_from-one : (n : ℕ) → digits_from 1 n ≡ (n % 10 + b'0') ∷ []
unfolding digits_from divided
digits_from-one n = refl

low_digits-suc :
    (fuel n : ℕ)
    → 0 < n / 10
    → low_digits (suc fuel) 10 n ≡ (n % 10 + b'0') ∷ low_digits fuel 10 (n / 10)
unfolding low_digits digit
low_digits-suc fuel n h =
    let e : (n / 10 == 0) ≡ false = ground arith in
    let e' : ltb (n % 10) 10 ≡ true = ground arith in rw (e, e')

low_digits-one : (fuel n : ℕ) → n < 10 → low_digits (suc fuel) 10 n ≡ (n % 10 + b'0') ∷ []
unfolding low_digits digit
low_digits-one fuel n h =
    let e : (n / 10 == 0) ≡ true = ground arith in
    let e' : ltb (n % 10) 10 ≡ true = ground arith in rw (e, e')

-- The digits that are counted and then taken from the highest on are those that are taken from the lowest
-- on and then reversed.
digits_from-reverse :
    (fuel n : ℕ)
    → n < 10 ^ suc fuel
    → digits_from (count_digits fuel n) n ≡ reverse (low_digits (suc fuel) 10 n)
digits_from-reverse zero n h =
    let small : n < 10 = omega arith in
    rw (count_digits-one 0 n small, low_digits-one 0 n small) (digits_from-one n)
digits_from-reverse (suc fuel) n h = elim (Bool-cases (ltb n 10)) [
  | inl one ↦
      let small : n < 10 = ground arith in
      rw (count_digits-one (suc fuel) n small, low_digits-one (suc fuel) n small)
        (digits_from-one n)
  | inr more ↦
      let big : 0 < n / 10 = ground arith in
      let fits : n / 10 < 10 ^ suc fuel = omega (arith, rw (pow-suc 10 (suc fuel)) at h) in
      rw
        (
          count_digits-suc fuel n big,
          digits_from-snoc (count_digits fuel (n / 10)) n,
          low_digits-suc (suc fuel) n big,
          reverse-cons (n % 10 + b'0') (low_digits (suc fuel) 10 (n / 10)),
          digits_from-reverse fuel (n / 10) fits,
        )
        refl
]

-- More fuel than the digits need adds none.
low_digits-fuel :
    (fuel more n : ℕ)
    → n < 10 ^ suc fuel
    → low_digits (suc fuel + more) 10 n ≡ low_digits (suc fuel) 10 n
low_digits-fuel zero more n h =
    let small : n < 10 = omega arith in
    let e : suc zero + more ≡ suc more = omega arith in
    rw (e, low_digits-one more n small, low_digits-one 0 n small) refl
low_digits-fuel (suc fuel) more n h =
    let e : suc (suc fuel) + more ≡ suc (suc fuel + more) = omega arith in
    elim (Bool-cases (ltb n 10)) [
      | inl one ↦
          let small : n < 10 = ground arith in
          rw (e, low_digits-one (suc fuel + more) n small, low_digits-one (suc fuel) n small) refl
      | inr many ↦
          let big : 0 < n / 10 = ground arith in
          let fits : n / 10 < 10 ^ suc fuel = omega (arith, rw (pow-suc 10 (suc fuel)) at h) in
          rw
            (
              e,
              low_digits-suc (suc fuel + more) n big,
              low_digits-suc (suc fuel) n big,
              low_digits-fuel fuel more (n / 10) fits,
            )
            refl
    ]

digits_from-num_to_base :
    (n : ℕ) → n < 2 ^ 32 → digits_from (count_digits 10 n) n ≡ num_to_base n 10
digits_from-num_to_base n h =
    digits_from-reverse 10 n (omega arith)
    ∙ sym (
        num_to_base-reverse n 10
        ∙ ap (λ (l : List ℕ). reverse l) (low_digits-fuel 10 21 n (omega arith)))

-- `putnumber` puts the characters that `print_dec` writes, for every `int` but the least one.
pub number_chars-eq-print_dec : (n : ℕ) → n < 2 ^ 32 → n ≢ 2 ^ 31 → number_chars n ≡ print_dec n
unfolding number_chars print_dec
number_chars-eq-print_dec n h ne =
    let other : (n == 2 ^ 31) ≡ false = ground arith in
    elim (Bool-cases (is_negative n)) [
      | inl neg ↦ rw (other, neg, digits_from-num_to_base (negate32 n) (omega arith)) refl
      | inr pos ↦ rw (other, pos, digits_from-num_to_base n h) refl
    ]
