-- ===== src/Commands/Printf/Escapes.antt =====
-- The escapes in a format.
use so_realtime.Prelude.{
  ℕ, zero, suc, ◌+◌, ◌<◌, ◌≤◌, ◌≡◌, ◌≢◌, refl, ap, false, Bool-cases, inl, inr, List, [], ◌∷◌,
  length, All, ◌==◌, if◌then◌else◌, arith, done,
}
use so_realtime.Userland.Stdio.Printed.{fputs_lem}
use so_realtime.Commands.Printf.{shift_left, merge, check_from, check_special_characters, _printf}

-- A text with "\n" and "\t" in place of the line ends and tabs.
pub escape : List ℕ → List ℕ
escape [] = []
escape (c ∷ cs) =
    let rest = escape cs in
    if c == b'\n' then b'\\' ∷ b'n' ∷ rest else if c == b'\t' then b'\\' ∷ b't' ∷ rest else c ∷ rest

pub shift_left-cons : (c : ℕ) (cs : List ℕ) → shift_left (c ∷ cs) ≡ cs
unfolding shift_left
shift_left-cons c [] = refl
shift_left-cons c (d ∷ cs) = ap (λ l. d ∷ l) (shift_left-cons d cs)

check_escaped :
    (fuel : ℕ) (t : List ℕ)
    → All (λ c. c ≢ b'\\') t
    → length t < fuel
    → check_from fuel (escape t) ≡ done t
unfolding check_from escape merge
check_escaped zero t h k = absurd (omega arith)
check_escaped (suc fuel) [] h k = refl
check_escaped (suc fuel) (c ∷ t) h k =
    let ih = check_escaped fuel t h.1 (omega arith) in
    elim (Bool-cases (c == b'\n')) [
      | inl e ↦
          let ten : c ≡ b'\n' = ground arith in
          rw (e, shift_left-cons b'n' (escape t), ih, ten) refl
      | inr e ↦ rw e (elim (Bool-cases (c == b'\t')) [
        | inl f ↦
            let nine : c ≡ b'\t' = ground arith in
            rw (f, shift_left-cons b't' (escape t), ih, nine) refl
        | inr f ↦ let g : (c == b'\\') ≡ false = ground (arith, h.0) in rw (f, g, ih) refl
      ])
    ]

escape-le : (t : List ℕ) → length t ≤ length (escape t)
unfolding escape
escape-le [] = omega arith
escape-le (c ∷ t) = ground (arith, escape-le t)

-- The command `printf` with one argument, a text without backslashes that is written with "\n" and "\t",
-- prints that text and answers 1.
pub _printf-escape :
    (t : List ℕ)
    → All (λ c. c ≢ b'\\') t
    → All (λ c. c ≢ 0) t
    → _printf (escape t ∷ []) ≡ done (t, 1)
unfolding _printf check_special_characters
_printf-escape t h k =
    rw (check_escaped (length (escape t) + 1) t h (omega (arith, escape-le t)), fputs_lem t k) refl
