-- ===== src/Userland/Numbers/Digits.antt =====
-- The digits of a number, and the number of its digits.
use so_realtime.Prelude.{
  get_or-middle, set-middle, length-snoc, lt→ltb, Bool-cases, ==_iff, inl, inr, ℕ, zero, suc, ◌+◌,
  ◌-◌, ◌*◌, ◌/◌, ◌^◌, ◌≤◌, ◌<◌, ◌≡◌, refl, ap, ◌∙◌, true, false, List, [], ◌∷◌, ◌++◌, length,
  length-append, get_or, set, ltb, ◌==◌, if◌then◌else◌, arith, All, append_assoc, append-nil,
}
use mathlib.Core.List.{reverse, reverse-cons, reverse-append}
use native.Mathlib.Nat.{pow-zero, pow-suc, pow-le-pow_left, div-add-mod, div-lt_iff_lt-mul}
use so_realtime.Userland.Numbers.{digit, low_digits, swap_ends, num_to_base}

-- The number that a character of `digit` stands for.
abbrev pub digit_value : ℕ → ℕ
digit_value c = if ltb c 58 then c - 48 else c - 55

-- A list is empty, or has one item, or two ends.
data Ends : List ℕ → Type 0 where
  nothing : Ends []
  one : (x : ℕ) → Ends (x ∷ [])
  both : (x : ℕ) (mid : List ℕ) (y : ℕ) → Ends (x ∷ (mid ++ (y ∷ [])))

ends : (xs : List ℕ) → Ends xs
ends [] = nothing
ends (x ∷ []) = one x
ends (x ∷ y ∷ ys) = outer x (y ∷ ys) (ends (y ∷ ys))
  where
    outer : (x : ℕ) (ys : List ℕ) → Ends ys → Ends (x ∷ ys)
    outer x [] nothing = one x
    outer x (y ∷ []) (one _) = both x [] y
    outer x _ (both a mid b) = both x (a ∷ mid) b

reverse-both :
    (x : ℕ) (mid : List ℕ) (y : ℕ) → reverse (x ∷ (mid ++ (y ∷ []))) ≡ y ∷ (reverse mid ++ (x ∷ []))
reverse-both x mid y =
    reverse-cons x (mid ++ (y ∷ [])) ∙ ap (λ l. l ++ (x ∷ [])) (reverse-append mid (y ∷ []))

swap_once :
    (pre mid post : List ℕ) (x y p : ℕ)
    → p ≡ length (pre ++ (x ∷ mid))
    → let buffer = pre ++ (x ∷ (mid ++ (y ∷ post))) in
      set (set buffer (length pre) (get_or buffer p 0)) p (get_or buffer (length pre) 0)
      ≡ pre ++ (y ∷ (mid ++ (x ∷ post)))
swap_once pre mid post x y p e =
    rw (e, far, get_or-middle pre (mid ++ (y ∷ post)) x 0, set-middle pre (mid ++ (y ∷ post)) x y)
      moved
  where
    far : get_or (pre ++ (x ∷ (mid ++ (y ∷ post)))) (length (pre ++ (x ∷ mid))) 0 ≡ y
    far = rw (append_assoc pre (x ∷ mid) (y ∷ post)) at (get_or-middle (pre ++ (x ∷ mid)) post y 0)

    same : length (pre ++ (x ∷ mid)) ≡ length (pre ++ (y ∷ mid))
    same = omega (arith, length-append pre (x ∷ mid), length-append pre (y ∷ mid))

    moved :
        set (pre ++ (y ∷ (mid ++ (y ∷ post)))) (length (pre ++ (x ∷ mid))) x
        ≡ pre ++ (y ∷ (mid ++ (x ∷ post)))
    moved = rw same (
        rw (append_assoc pre (y ∷ mid) (y ∷ post), append_assoc pre (y ∷ mid) (x ∷ post)) at
          (set-middle (pre ++ (y ∷ mid)) post y x))

-- Swapping the ends inward reverses the part of the buffer between them.
swap_ends_lem :
    (fuel : ℕ) (pre mid post : List ℕ)
    → Ends mid
    → length mid ≤ fuel
    → swap_ends fuel (length pre) (length pre + length mid - 1) (pre ++ (mid ++ post))
      ≡ pre ++ (reverse mid ++ post)
unfolding swap_ends
swap_ends_lem zero pre mid post nothing h = refl
swap_ends_lem zero pre mid post (one x) h = absurd (omega arith)
swap_ends_lem zero pre mid post (both x inner y) h = absurd (omega arith)
swap_ends_lem (suc fuel) pre mid post nothing h =
    let e : ltb (length pre) (length pre + 0 - 1) ≡ false = ground arith in rw e
swap_ends_lem (suc fuel) pre mid post (one x) h =
    let e : ltb (length pre) (length pre + 1 - 1) ≡ false = ground arith in rw e
swap_ends_lem (suc fuel) pre mid post (both x inner y) h =
    rw
      (
        more,
        whole,
        swap_once pre inner post x y last last_lem,
        first,
        before_last,
        reverse-both x inner y,
        append_assoc (reverse inner) (x ∷ []) post,
      )
      (rw
        (
          append_assoc pre (y ∷ []) (inner ++ (x ∷ post)),
          append_assoc pre (y ∷ []) (reverse inner ++ (x ∷ post)),
        )
        at
        (swap_ends_lem fuel (pre ++ (y ∷ [])) inner (x ∷ post) (ends inner)
          (omega (arith, length-snoc inner y))))
  where
    last : ℕ
    last = length pre + suc (length (inner ++ (y ∷ []))) - 1

    last_lem : last ≡ length (pre ++ (x ∷ inner))
    last_lem = omega (arith, length-snoc inner y, length-append pre (x ∷ inner))

    more : ltb (length pre) last ≡ true
    more = lt→ltb _ _ (omega (arith, length-snoc inner y))

    whole : (inner ++ (y ∷ [])) ++ post ≡ inner ++ (y ∷ post)
    whole = append_assoc inner (y ∷ []) post

    first : length pre + 1 ≡ length (pre ++ (y ∷ []))
    first = omega (arith, length-snoc pre y)

    before_last : last - 1 ≡ length (pre ++ (y ∷ [])) + length inner - 1
    before_last = omega (arith, length-snoc pre y, length-snoc inner y)

swap_ends_whole :
    (buffer : List ℕ) → swap_ends (length buffer) 0 (length buffer - 1) buffer ≡ reverse buffer
swap_ends_whole buffer =
    let e : 0 + length buffer - 1 ≡ length buffer - 1 = omega arith in
    rw (e, append-nil buffer, append-nil (reverse buffer)) at
      (swap_ends_lem (length buffer) [] buffer [] (ends buffer) (omega arith))

-- `num_to_base` leaves the digits in the buffer with the highest first.
pub num_to_base-reverse :
    (value base : ℕ) → num_to_base value base ≡ reverse (low_digits 32 base value)
unfolding num_to_base
num_to_base-reverse value base = swap_ends_whole (low_digits 32 base value)

-- The number that digits stand for, lowest first.
abbrev pub low_value : ℕ → List ℕ → ℕ
low_value base [] = 0
low_value base (c ∷ cs) = digit_value c + base * low_value base cs

pub digit_value-digit : (r : ℕ) → digit_value (digit r) ≡ r
unfolding digit
digit_value-digit r = ground arith

-- Decimal characters.
abbrev pub IsDecimal : ℕ → Type 0
IsDecimal c = (48 ≤ c) × (c ≤ 57)

pub low_digits-value :
    (fuel base value : ℕ)
    → 1 < base
    → value < base ^ fuel
    → low_value base (low_digits fuel base value) ≡ value
unfolding low_digits
low_digits-value zero base value hb h = omega (arith, pow-zero base)
low_digits-value (suc fuel) base value hb h =
    let split = div-add-mod value base in
    let smaller : value / base < base ^ fuel =
      (div-lt_iff_lt-mul (omega arith)).1 (rw (← pow-suc base fuel) h) in
    elim (Bool-cases (value / base == 0)) [
      | inl last ↦
          rw (last, digit_value-digit)
            (omega (arith, rw ((==_iff (value / base) 0).0 last) at split))
      | inr more ↦
          rw (more, digit_value-digit, low_digits-value fuel base (value / base) hb smaller)
            (omega (arith, split))
    ]

pub low_digits-IsDecimal : (fuel value : ℕ) → All IsDecimal (low_digits fuel 10 value)
unfolding low_digits digit
low_digits-IsDecimal zero value = tt
low_digits-IsDecimal (suc fuel) value = ground (arith, low_digits-IsDecimal fuel (value / 10))

reverse-reverse : (cs : List ℕ) → reverse (reverse cs) ≡ cs
reverse-reverse [] = refl
reverse-reverse (c ∷ cs) =
    rw (reverse-cons c cs, reverse-append (reverse cs) (c ∷ []), reverse-reverse cs) refl

-- In a base above 1, the digits that `num_to_base` writes stand for the value, read from the last to the
-- first with the lowest last.
pub num_to_base_lem :
    (value base : ℕ)
    → 1 < base
    → value < 2 ^ 32
    → low_value base (reverse (num_to_base value base)) ≡ value
num_to_base_lem value base h k =
    let fits : value < base ^ 32 =
      omega (arith, pow-le-pow_left {n = 2} {m = base} (omega arith) 32) in
    rw (num_to_base-reverse value base, reverse-reverse (low_digits 32 base value))
      (low_digits-value 32 base value h fits)
