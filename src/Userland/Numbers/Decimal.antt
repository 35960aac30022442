-- ===== src/Userland/Numbers/Decimal.antt =====
-- `read_dec` reads what `print_dec` writes.
use so_realtime.Prelude.{
  ℕ, zero, suc, ◌+◌, ◌-◌, ◌*◌, ◌%◌, ◌^◌, ◌≤◌, ◌<◌, ◌≡◌, ◌≢◌, ◌⊎◌, refl, sym, ap, ◌∙◌, true, false,
  ◌||◌, List, [], ◌∷◌, ◌++◌, length, length-snoc, ltb, arith, All, Bool-cases, inl, inr,
}
use mathlib.Core.List.{reverse, reverse-cons}
use so_realtime.Userland.Numbers.{
  low_digits, num_to_base, print_dec, read_digits, read_dec, is_negative, negate32,
}
use so_realtime.Userland.Numbers.Digits.{
  low_value, IsDecimal, num_to_base-reverse, low_digits-value, low_digits-IsDecimal,
}

-- The number that the characters stand for behind the number `n`, highest first.
abbrev pub high_value : ℕ → List ℕ → ℕ
high_value n [] = n
high_value n (c ∷ cs) = high_value (n * 10 + (c - 48)) cs

high_value-ge : (n : ℕ) (cs : List ℕ) → n ≤ high_value n cs
high_value-ge n [] = omega arith
high_value-ge n (c ∷ cs) = omega (arith, high_value-ge (n * 10 + (c - 48)) cs)

high_value-snoc :
    (n : ℕ) (cs : List ℕ) (c : ℕ) → high_value n (cs ++ (c ∷ [])) ≡ high_value n cs * 10 + (c - 48)
high_value-snoc n [] c = refl
high_value-snoc n (x ∷ cs) c = high_value-snoc (n * 10 + (x - 48)) cs c

high_value-reverse : (cs : List ℕ) → All IsDecimal cs → high_value 0 (reverse cs) ≡ low_value 10 cs
high_value-reverse [] h = refl
high_value-reverse (c ∷ cs) h =
    rw (reverse-cons c cs, high_value-snoc 0 (reverse cs) c, high_value-reverse cs h.1)
      (ground arith)

All-snoc : (cs : List ℕ) (c : ℕ) → All IsDecimal cs → IsDecimal c → All IsDecimal (cs ++ (c ∷ []))
All-snoc [] c h k = (k, tt)
All-snoc (x ∷ cs) c h k = (h.0, All-snoc cs c h.1 k)

All-reverse : (cs : List ℕ) → All IsDecimal cs → All IsDecimal (reverse cs)
All-reverse [] h = tt
All-reverse (c ∷ cs) h = rw reverse-cons (All-snoc (reverse cs) c (All-reverse cs h.1) h.0)

-- The text ends, or goes on with something other than a digit.
abbrev pub Stops : List ℕ → Type 0
Stops [] = Unit
Stops (c ∷ cs) = (ltb c 48 || ltb 57 c) ≡ true

read_digits-stop : (rest : List ℕ) (n d : ℕ) → Stops rest → read_digits rest n d ≡ (n, d)
unfolding read_digits
read_digits-stop [] n d h = refl
read_digits-stop (c ∷ cs) n d h = ground arith

-- All digits are read, as long as their number fits 31 bits.
read_digits_lem :
    (cs rest : List ℕ) (n d : ℕ)
    → All IsDecimal cs
    → Stops rest
    → high_value n cs ≤ 2 ^ 31
    → read_digits (cs ++ rest) n d ≡ (high_value n cs, length cs + d)
unfolding read_digits
read_digits_lem [] rest n d h k fits =
    let e : 0 + d ≡ d = omega arith in rw e (read_digits-stop rest n d k)
read_digits_lem (c ∷ cs) rest n d h k fits = ground (
  arith,
  read_digits_lem cs rest (n * 10 + (c - 48)) (d + 1) h.1 k fits,
  high_value-ge (n * 10 + (c - 48)) cs,
  here,
)
  where
    here : (n * 10 + c + 2 ^ 32 - 48) % 2 ^ 32 ≡ n * 10 + (c - 48)
    here = omega (arith, high_value-ge (n * 10 + (c - 48)) cs)

-- The value of the number that `num_to_base` writes in base 10.
num_to_base-value : (value : ℕ) → value < 2 ^ 32 → high_value 0 (num_to_base value 10) ≡ value
num_to_base-value value h =
    rw
      (
        num_to_base-reverse value 10,
        high_value-reverse (low_digits 32 10 value) (low_digits-IsDecimal 32 value),
      )
      (low_digits-value 32 10 value (omega arith) (omega arith))

num_to_base-IsDecimal : (value : ℕ) → All IsDecimal (num_to_base value 10)
num_to_base-IsDecimal value =
    rw (num_to_base-reverse value 10)
      (All-reverse (low_digits 32 10 value) (low_digits-IsDecimal 32 value))

read_digits-num_to_base :
    (value : ℕ) (rest : List ℕ)
    → value ≤ 2 ^ 31
    → Stops rest
    → read_digits (num_to_base value 10 ++ rest) 0 0 ≡ (value, length (num_to_base value 10))
read_digits-num_to_base value rest h k =
    let e = num_to_base-value value (omega arith) in
    let none_before : length (num_to_base value 10) + 0 ≡ length (num_to_base value 10) =
      omega arith in
    rw (e, none_before) at
      (read_digits_lem (num_to_base value 10) rest 0 0 (num_to_base-IsDecimal value) k (rw e h))

read_dec-positive :
    (cs rest : List ℕ)
    → All IsDecimal cs
    → cs ≢ []
    → read_dec (cs ++ rest) ≡ read_digits (cs ++ rest) 0 0
unfolding read_dec
read_dec-positive [] rest h k = absurd (k refl)
read_dec-positive (c ∷ cs) rest h k = ground arith

low_digits-nonempty : (fuel value : ℕ) → 0 < fuel → 0 < length (low_digits fuel 10 value)
unfolding low_digits
low_digits-nonempty zero value h = absurd (omega arith)
low_digits-nonempty (suc fuel) value h = omega arith

pub length-reverse : (cs : List ℕ) → length (reverse cs) ≡ length cs
length-reverse [] = refl
length-reverse (c ∷ cs) = rw (reverse-cons c cs, length-snoc (reverse cs) c, length-reverse cs) refl

num_to_base-nonempty : (value : ℕ) → num_to_base value 10 ≢ []
num_to_base-nonempty value e =
    let some_digits = low_digits-nonempty 32 value (omega arith) in
    let same = length-reverse (low_digits 32 10 value) in
    let empty : length (reverse (low_digits 32 10 value)) ≡ 0 =
      ap (λ (l : List ℕ). length l) (sym (num_to_base-reverse value 10) ∙ e) in
    absurd (omega (arith, some_digits, same, empty))

print_dec_negative :
    (num : ℕ) → is_negative num ≡ true → print_dec num ≡ 45 ∷ num_to_base (negate32 num) 10
unfolding print_dec
print_dec_negative num e = rw e refl

print_dec_positive : (num : ℕ) → is_negative num ≡ false → print_dec num ≡ num_to_base num 10
unfolding print_dec
print_dec_positive num e = rw e refl

read_dec_negative :
    (cs : List ℕ)
    → read_dec (45 ∷ cs) ≡ (negate32 (read_digits cs 0 0).0, (read_digits cs 0 0).1 + 1)
unfolding read_dec
read_dec_negative cs = refl

-- In front of the end of the text or of a character that is no digit, `read_dec` reads back the `int`
-- that `print_dec` wrote, whatever that is, and reads exactly the characters that it wrote.
pub read_dec-print_dec :
    (num : ℕ) (rest : List ℕ)
    → num < 2 ^ 32
    → Stops rest
    → read_dec (print_dec num ++ rest) ≡ (num, length (print_dec num))
read_dec-print_dec num rest h k = elim (Bool-cases (is_negative num)) [
  | inl neg ↦
      let small : negate32 num ≤ 2 ^ 31 = ground arith in
      let back : negate32 (negate32 num) ≡ num = ground arith in
      rw
        (
          print_dec_negative num neg,
          read_dec_negative (num_to_base (negate32 num) 10 ++ rest),
          read_digits-num_to_base (negate32 num) rest small k,
          back,
        )
        (ap (λ (n : ℕ). (num, n)) (omega arith))
  | inr pos ↦
      let small : num ≤ 2 ^ 31 = ground arith in
      rw
        (
          print_dec_positive num pos,
          read_dec-positive (num_to_base num 10) rest (num_to_base-IsDecimal num)
              (num_to_base-nonempty num),
        )
        (read_digits-num_to_base num rest small k)
]

-- The first character of a number: a digit, or the sign.
abbrev pub IsNumeral : List ℕ → Type 0
IsNumeral [] = ⊥
IsNumeral (c ∷ cs) = IsDecimal c ⊎ (c ≡ b'-')

IsDecimal-IsNumeral : (cs : List ℕ) → All IsDecimal cs → cs ≢ [] → IsNumeral cs
IsDecimal-IsNumeral [] h ne = absurd (ne refl)
IsDecimal-IsNumeral (c ∷ cs) h ne = inl h.0

pub print_dec-IsNumeral : (num : ℕ) → IsNumeral (print_dec num)
print_dec-IsNumeral num = elim (Bool-cases (is_negative num)) [
  | inl neg ↦ rw (print_dec_negative num neg) (inr refl)
  | inr pos ↦ rw (print_dec_positive num pos) (
      IsDecimal-IsNumeral (num_to_base num 10) (num_to_base-IsDecimal num)
        (num_to_base-nonempty num))
]

-- Each character of a number is a digit or the sign.
pub print_dec-All : (num : ℕ) → All (λ c. IsDecimal c ⊎ (c ≡ b'-')) (print_dec num)
print_dec-All num = elim (Bool-cases (is_negative num)) [
  | inl neg ↦
      rw (print_dec_negative num neg)
        (inr refl, weaken (num_to_base (negate32 num) 10) (num_to_base-IsDecimal (negate32 num)))
  | inr pos ↦
      rw (print_dec_positive num pos) (weaken (num_to_base num 10) (num_to_base-IsDecimal num))
]
  where
    weaken : (cs : List ℕ) → All IsDecimal cs → All (λ c. IsDecimal c ⊎ (c ≡ b'-')) cs
    weaken [] h = tt
    weaken (c ∷ cs) h = (inl h.0, weaken cs h.1)
