-- ===== src/Commands/Printf/Ends.antt =====
-- The command `printf` comes to an end.
use so_realtime.Prelude.{
  ℕ, zero, suc, ◌+◌, ◌-◌, ◌<◌, ◌≤◌, ◌≡◌, refl, Option, none, some, List, [], ◌∷◌, length, get_or,
  drop, ◌==◌, arith, codes, Outcome, UnlessFault, UnlessFault-bind, UnlessFault-if,
}
use so_realtime.Syscalls.{stdout, stderr}
use so_realtime.Userland.Stdio.{Written, str, int, fputs, fputc, sscanf, printf, fprintf, vfprintf}
use so_realtime.Userland.Stdio.Printed.{vfprintf-ends}
use so_realtime.Userland.Stdio.Scanned.{sscanf-ends}
use so_realtime.Commands.{parse_number}
use so_realtime.Commands.Printf.{
  merge, check_from, check_special_characters, put, fails, convert, convert_number, _printf_from,
  _printf,
}
use so_realtime.Commands.Printf.Escapes.{shift_left-cons}

abbrev Any {ℓ} : {A : Type ℓ} → A → Type 0
Any a = Unit

fails-ends : (m : Outcome Written) → UnlessFault Any m → UnlessFault Any (fails m)
fails-ends m h = UnlessFault-bind Any Any m _ (λ w d. tt) h

put-ends : (a : Written) (m : Outcome Written) → UnlessFault Any m → UnlessFault Any (put a m)
put-ends a m h = UnlessFault-bind Any Any m _ (λ w d. tt) h

parse_number-ends : (arg : List ℕ) → UnlessFault Any (parse_number arg)
unfolding parse_number
parse_number-ends arg =
    UnlessFault-bind Any Any (sscanf arg (codes "%d")) _ (λ r d. tt) (sscanf-ends arg (codes "%d"))

convert_number-ends :
    (arg : List ℕ) (rest : Outcome Written) (x : Option ℕ)
    → UnlessFault Any rest
    → UnlessFault Any (convert_number arg rest x)
unfolding convert_number fprintf printf
convert_number-ends arg rest none h =
    fails-ends _ (vfprintf-ends stderr (codes "%s: invalid number\n") (str arg ∷ []))
convert_number-ends arg rest (some n) h =
    UnlessFault-bind Any Any (vfprintf stdout (codes "%d") (int n ∷ [])) _ (λ w d. put-ends w _ h)
      (vfprintf-ends stdout (codes "%d") (int n ∷ []))

convert-ends :
    (option : ℕ) (argv : List (List ℕ)) (next : List (List ℕ) → Outcome Written)
    → ((rest : List (List ℕ)) → UnlessFault Any (next rest))
    → UnlessFault Any (convert option argv next)
unfolding convert fprintf printf
convert-ends option [] next h = fails-ends _ (vfprintf-ends stderr (codes "Invalid arguments\n") [])
convert-ends option (arg ∷ argv) next h =
    UnlessFault-if Any (option == b's') _ _ (λ _. put-ends (fputs stdout arg) _ (h argv))
      (λ _.
        UnlessFault-if Any (option == b'd') _ _
          (λ _.
            UnlessFault-bind Any Any (parse_number arg) _
              (λ x d. put-ends (x.1, 0) _ (convert_number-ends arg (next argv) x.0 (h argv)))
              (parse_number-ends arg))
          (λ _.
            UnlessFault-if Any (option == b'c') _ _
              (λ _. put-ends (fputc stdout (get_or arg 0 0)) _ (h argv))
              (λ _.
                fails-ends _
                  (vfprintf-ends stderr (codes "Unsupported format: '%%c'") (int option ∷ [])))))

-- A rewritten format is not longer, and not empty if the format was not.
abbrev Fits : List ℕ → List ℕ → Type 0
Fits fmt m = (length m ≤ length fmt) × (0 < length fmt → 0 < length m)

check_from-Fits :
    (fuel : ℕ) (fmt : List ℕ) → length fmt < fuel → UnlessFault (Fits fmt) (check_from fuel fmt)
unfolding check_from merge
check_from-Fits zero fmt h = absurd (omega arith)
check_from-Fits (suc fuel) [] h = (omega arith, λ k. k)
check_from-Fits (suc fuel) (c ∷ []) h =
    UnlessFault-if (Fits (c ∷ [])) (c == b'\\') _ _ (λ _. tt)
      (λ _.
        UnlessFault-bind (Fits []) (Fits (c ∷ [])) (check_from fuel []) _
          (λ r d. (omega (arith, d.0), λ k. omega arith)) (check_from-Fits fuel [] (omega arith)))
check_from-Fits (suc fuel) (c ∷ d ∷ fmt) h =
    UnlessFault-if (Fits (c ∷ d ∷ fmt)) (c == b'\\') _ _
      (λ _. rw (shift_left-cons d fmt) (
        UnlessFault-bind (Fits fmt) (Fits (c ∷ d ∷ fmt)) (check_from fuel fmt) _
          (λ r e. (omega (arith, e.0), λ k. omega arith)) (check_from-Fits fuel fmt (omega arith))))
      (λ _.
        UnlessFault-bind (Fits (d ∷ fmt)) (Fits (c ∷ d ∷ fmt)) (check_from fuel (d ∷ fmt)) _
          (λ r e. (omega (arith, e.0), λ k. omega arith))
          (check_from-Fits fuel (d ∷ fmt) (omega arith)))

check_special_characters-Fits :
    (fmt : List ℕ) → UnlessFault (Fits fmt) (check_special_characters fmt)
unfolding check_special_characters
check_special_characters-Fits fmt = check_from-Fits (length fmt + 1) fmt (omega arith)

drop-one : (m : List ℕ) → length (drop 1 m) ≡ length m - 1
drop-one [] = refl
drop-one (c ∷ m) = omega arith

_printf_from-ends :
    (fuel : ℕ) (fmt : List ℕ) (argv : List (List ℕ))
    → length fmt < fuel
    → UnlessFault Any (_printf_from fuel fmt argv)
unfolding _printf_from
_printf_from-ends zero fmt argv h = absurd (omega arith)
_printf_from-ends (suc fuel) [] argv h = tt
_printf_from-ends (suc fuel) (c ∷ fmt) argv h =
    UnlessFault-if Any (c == b'%') _ _
      (λ _.
        convert-ends (get_or fmt 0 0) argv _
          (λ rest. _printf_from-ends fuel (drop 1 fmt) rest (omega (arith, drop-one fmt))))
      (λ _.
        UnlessFault-bind (Fits (c ∷ fmt)) Any (check_special_characters (c ∷ fmt)) _
          (λ m d.
            put-ends (fputc stdout (get_or m 0 0)) _
              (_printf_from-ends fuel (drop 1 m) argv (omega (arith, d.0, drop-one m))))
          (check_special_characters-Fits (c ∷ fmt)))

-- The command `printf` comes to an end whatever its arguments are, although it rewrites its format as it
-- goes: no rewriting makes the rest of the format longer.
pub _printf-ends : (argv : List (List ℕ)) → UnlessFault (λ _. Unit {0}) (_printf argv)
unfolding _printf
_printf-ends [] = tt
_printf-ends (fmt ∷ []) =
    UnlessFault-bind (Fits fmt) Any (check_special_characters fmt) _ (λ m d. tt)
      (check_special_characters-Fits fmt)
_printf-ends (fmt ∷ arg ∷ argv) = _printf_from-ends (length fmt + 1) fmt (arg ∷ argv) (omega arith)
