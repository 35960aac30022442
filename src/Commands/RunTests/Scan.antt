-- ===== src/Commands/RunTests/Scan.antt =====
-- `scanf_test` on a text of its format.
use so_realtime.Prelude.{
  ℕ, ◌+◌, ◌%◌, ◌^◌, ◌≤◌, ◌<◌, ◌≡◌, ◌≢◌, ◌∙◌, ap₂, refl, false, ◌||◌, List, [], ◌∷◌, ◌++◌, length,
  length-append, append_assoc, append-nil, All, leb, ltb, true, ◌==◌, some, codes, arith, done,
  Ensures, Ensures-value,
}
use so_realtime.Syscalls.{stdin, sys_write, write_from}
use so_realtime.Userland.Ctype.{isspace}
use so_realtime.Userland.Strings.{strchr}
use so_realtime.Userland.Numbers.{print_dec}
use so_realtime.Userland.Numbers.Decimal.{read_dec-print_dec, print_dec-IsNumeral, print_dec-All}
use so_realtime.Userland.Stdio.{
  str, int, fgets, fgets_from, fscanf, scanf, sscanf, scan_from, finish, skip_spaces, printf,
  vfprintf, print_arg, fputs, fputc, puts, write,
}
use so_realtime.Userland.Stdio.Printed.{fputs_lem, put_dec_lem}
use so_realtime.Userland.Stdio.Scanned.{sscanf-silent}
use so_realtime.Userland.Stdio.Fields.{scan_number, skip_spaces-IsNumeral}
use so_realtime.Userland.Stdio.Words.{IsField, scan_word, scan_char, scan_literals}
use so_realtime.Commands.Fractal.Lines.{IsStored, All-append, print_dec-IsStored}
use so_realtime.Commands.RunTests.{Machine, scan_format, stored_values, assert, scanf_test}

-- A text of the format.
abbrev pub text_for : ℕ → List ℕ → ℕ → List ℕ
text_for c s n = codes "start-" ++ (c ∷ b'-' ∷ (s ++ (b'-' ∷ (print_dec n ++ codes "-end"))))

-- On STDIN each character that is stored is shown.
fgets_from-shown :
    (line read echo more : List ℕ)
    → All IsStored line
    → length read + length line ≤ 64
    → fgets_from stdin 64 read echo (line ++ (b'\n' ∷ more))
      ≡ done (some (read ++ line), echo ++ (line ++ (b'\n' ∷ [])), more)
unfolding fgets_from
fgets_from-shown [] read echo more h k = rw append-nil refl
fgets_from-shown (c ∷ line) read echo more ((a, b, e, n), h) k =
    let not_end : (c == 255) ≡ false = ground arith in
    let stored : (c == b'\n' || leb 64 (length read)) ≡ false = ground arith in
    let kept : (c == 0 || leb 128 c) ≡ false = ground arith in
    let plain : (c == 8) ≡ false = ground arith in
    rw (not_end, stored, kept, plain)
      (fgets_from-shown line (read ++ (c ∷ [])) (echo ++ (c ∷ [])) more h
          (omega (arith, length-append read (c ∷ [])))
        ∙ ap₂ (λ l e'. done (some l, e', more)) (append_assoc read (c ∷ []) line)
            (append_assoc echo (c ∷ []) (line ++ (b'\n' ∷ []))))

-- A visible character.
abbrev pub IsVisible : ℕ → Type 0
IsVisible c = (32 < c) × (c < 127)

-- A word of such characters without a dash.
abbrev pub IsPart : List ℕ → Type 0
IsPart s = (0 < length s) × All (λ d. IsVisible d × (d ≢ b'-')) s

part-IsField : (s : List ℕ) → All (λ d. IsVisible d × (d ≢ b'-')) s → All (IsField b'-') s
unfolding isspace
part-IsField [] h = tt
part-IsField (d ∷ s) ((h, n), hs) =
    ((ground arith, omega arith, omega arith, omega arith), part-IsField s hs)

part-IsStored : (s : List ℕ) → All (λ d. IsVisible d × (d ≢ b'-')) s → All IsStored s
part-IsStored [] h = tt
part-IsStored (d ∷ s) ((h, n), hs) = (omega arith, part-IsStored s hs)

sscanf-text_for :
    (c : ℕ) (s : List ℕ) (n : ℕ)
    → IsVisible c
    → IsPart s
    → n < 2 ^ 32
    → sscanf (text_for c s n) scan_format ≡ done (3, int c ∷ str s ∷ int n ∷ [], [])
unfolding scan_from skip_spaces finish isspace
sscanf-text_for c [] n v h k = absurd (omega arith)
sscanf-text_for c (d ∷ s) n v h k =
    let number = print_dec n ++ codes "-end" in
    let word = d ∷ (s ++ (b'-' ∷ number)) in
    let (more, whole) =
      skip_spaces-IsNumeral (print_dec n) (codes "-end") (print_dec-IsNumeral n) in
    sscanf-silent (text_for c (d ∷ s) n) scan_format 3 (int c ∷ str (d ∷ s) ∷ int n ∷ []) (
      scan_literals (codes "start-") (c ∷ b'-' ∷ word) (codes "%c-%s-%d-end") 20 14 0 [] refl
        (refl, (refl, (refl, (refl, (refl, (refl, tt))))))
      ∙ scan_char 13 c (b'-' ∷ word) (codes "-%s-%d-end") 0 [] (ground arith)
      ∙ scan_literals (codes "-") word (codes "%s-%d-end") 13 12 1 (int c ∷ []) refl (refl, tt)
      ∙ scan_word 11 d b'-' s number (codes "%d-end") 1 (int c ∷ []) (part-IsField (d ∷ s) h.1)
      ∙ scan_literals (codes "-") number (codes "%d-end") 11 10 2 (int c ∷ str (d ∷ s) ∷ []) refl
          (refl, tt)
      ∙ scan_number 9 n number (codes "%d-end") (print_dec n) (codes "-end") (codes "-end") 2
          (int c ∷ str (d ∷ s) ∷ []) (omega (arith, length-append (print_dec n) (codes "-end")))
          (omega arith) whole refl more (read_dec-print_dec n (codes "-end") k refl))

-- What `scanf_test` shows of the three values.
abbrev pub you_typed : ℕ → List ℕ → ℕ → List ℕ
you_typed c s n =
    codes "You typed: " ++ (c ∷ b',' ∷ b' ' ∷ (s ++ (b',' ∷ b' ' ∷ (print_dec n ++ (b'\n' ∷ [])))))

printf-you_typed :
    (c : ℕ) (s : List ℕ) (n : ℕ)
    → IsVisible c
    → All (λ d. d ≢ 0) s
    → Ensures
        (λ w. w.0 ≡ you_typed c s n)
        (printf (codes "You typed: %c, %s, %d\n") (int c ∷ str s ∷ int n ∷ []))
unfolding printf vfprintf print_arg strchr fputc write sys_write write_from
printf-you_typed c s n v h =
    let byte : c % 256 ≡ c = omega arith in
    let shown : (c == 0) ≡ false = ground arith in
    rw (byte, shown, fputs_lem s h, put_dec_lem n) refl

abbrev pub prompt : List ℕ
prompt = codes "Type a text with the following format (ignore spaces): 'start-%c-%s-%d-end' \n"

printf-prompt :
    printf
      (codes "Type a text with the following format (ignore spaces): '%s' \n")
      (str scan_format ∷ [])
    ≡ done (prompt, length prompt)
unfolding printf vfprintf print_arg strchr fputs fputc write sys_write write_from
printf-prompt = refl

puts-title : puts (codes "scanf test:\n") ≡ (codes "scanf test:\n", 12)
unfolding puts fputs fputc write sys_write write_from
puts-title = refl

text_for-IsStored :
    (c : ℕ) (s : List ℕ) (n : ℕ) → IsVisible c → IsPart s → All IsStored (text_for c s n)
text_for-IsStored c s n v h =
    All-append IsStored (codes "start-") (c ∷ b'-' ∷ (s ++ (b'-' ∷ (print_dec n ++ codes "-end"))))
      (omega arith)
      (
        omega arith,
        (
          omega arith,
          All-append IsStored s (b'-' ∷ (print_dec n ++ codes "-end")) (part-IsStored s h.1) (
            omega arith,
            All-append IsStored (print_dec n) (codes "-end")
                (print_dec-IsStored (print_dec n) (print_dec-All n)) (omega arith),
          ),
        ),
      )

part-ne : (s : List ℕ) → All (λ d. IsVisible d × (d ≢ b'-')) s → All (λ d. d ≢ 0) s
part-ne [] h = tt
part-ne (d ∷ s) ((h, n), hs) = (omega arith, part-ne s hs)

-- `scanf_test` passes on every text of its format that is typed: a visible character, a word of visible
-- characters without a dash and an `int` in decimal, with fewer than 64 characters in all. It shows the text,
-- and then the three values; it prints no failure, and takes just that line of the keys.
pub scanf_test_lem :
    (c : ℕ) (s : List ℕ) (n : ℕ) (more : List ℕ) (m : Machine)
    → IsVisible c
    → IsPart s
    → n < 2 ^ 32
    → length (text_for c s n) < 64
    → m.keys ≡ text_for c s n ++ (b'\n' ∷ more)
    → scanf_test m
      ≡ done (
        codes "scanf test:\n" ++ (prompt ++ ((text_for c s n ++ (b'\n' ∷ [])) ++ you_typed c s n)),
        record m { keys = more },
      )
unfolding scanf_test scanf fscanf fgets assert stored_values
scanf_test_lem c s n more m v h k short keys =
    let read =
      fgets_from-shown (text_for c s n) [] [] more (text_for-IsStored c s n v h)
        (omega (arith, short)) in
    let (w, e, shown) =
      Ensures-value (λ w. w.0 ≡ you_typed c s n)
        (printf (codes "You typed: %c, %s, %d\n") (int c ∷ str s ∷ int n ∷ []))
        (printf-you_typed c s n v (part-ne s h.1)) in
    let room : ltb (length (text_for c s n)) 64 ≡ true = ground (arith, short) in
    rw (puts-title, printf-prompt, keys, read, room, sscanf-text_for c s n v h k, e, shown)
      (rw
        (
          append-nil (you_typed c s n),
          append-nil ((s ++ (b'-' ∷ (print_dec n ++ codes "-end"))) ++ (b'\n' ∷ [])),
        )
        refl)
