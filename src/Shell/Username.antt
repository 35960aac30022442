-- ===== src/Shell/Username.antt =====
-- The name that the shell asks for.
use so_realtime.Prelude.{
  ℕ, zero, suc, ◌+◌, ◌-◌, ◌<◌, ◌≤◌, ◌≡◌, ◌≢◌, refl, sym, ◌∙◌, true, false, Bool-cases, inl, inr,
  ◌&&◌, not, List, [], ◌∷◌, ◌++◌, append_assoc, append-nil, codes, length, length-append, replicate,
  set, set-middle, arith, All, ltb, ◌==◌, if◌then◌else◌, done, fault,
}
use so_realtime.Userland.Ctype.{isspace}
use so_realtime.Syscalls.{stderr, sys_write, write_from}
use so_realtime.Userland.Strings.{strchr}
use so_realtime.Userland.Numbers.{num_to_base, low_digits, digit, swap_ends}
use so_realtime.Userland.Stdio.{
  int, putchar, printf, fprintf, vfprintf, print_arg, put_dec, put_number, fputsn, fputc, write,
}
use so_realtime.Userland.Stdio.Printed.{fputc_lem}
use so_realtime.Shell.{buffer_size, max_username_size, text_of, read_name, ask_again, _get_username}

-- A character that is stored: not the erasing one, and no space.
abbrev pub IsStored : ℕ → Type 0
IsStored c = (0 < c) × (c < 128) × (c ≢ 8) × (isspace c ≡ false)

line_end-isspace : (c : ℕ) → isspace c ≡ false → (c == b'\n') ≡ false
unfolding isspace
line_end-isspace c h = elim (Bool-cases (c == b'\n')) [
  | inl e ↦ let ten : c ≡ b'\n' = ground arith in absurd (cc (rw ten at h))
  | inr e ↦ e
]

read_name-stored :
    (c i : ℕ) (input shown name : List ℕ)
    → IsStored c
    → i < buffer_size
    → read_name (c ∷ input) shown name i
      ≡ read_name input (shown ++ (c ∷ [])) (set name i c) (i + 1)
unfolding read_name putchar
read_name-stored c i input shown name (pos, small, erase, sp) h =
    let a : (c == b'\n') ≡ false = line_end-isspace c sp in
    let b : (c == 8) ≡ false = ground arith in
    let d : (ltb 0 c && ltb c 128 && not (isspace c)) ≡ true = rw sp (ground arith) in
    let e : ltb i buffer_size ≡ true = ground arith in
    rw (a, b, d, e, fputc_lem c (λ z. absurd (omega arith))) refl

read_name_lem :
    (w rest shown before : List ℕ) (left_over : ℕ)
    → All IsStored w
    → length before + left_over ≡ buffer_size
    → length w ≤ left_over
    → read_name (w ++ (b'\n' ∷ rest)) shown (before ++ replicate left_over 0) (length before)
      ≡ done (
        shown ++ w,
        before ++ (w ++ replicate (left_over - length w) 0),
        length before + length w,
        rest,
      )
unfolding read_name
read_name_lem [] rest shown before left_over h e fits =
    let none_stored : length before + 0 ≡ length before = omega arith in
    let all_left : left_over - 0 ≡ left_over = omega arith in
    rw (none_stored, all_left, append-nil shown) refl
read_name_lem (c ∷ w) rest shown before zero h e fits = absurd (omega arith)
read_name_lem (c ∷ w) rest shown before (suc left_over) h e fits =
    let same : (before ++ (c ∷ [])) ++ replicate left_over 0
        ≡ before ++ (c ∷ replicate left_over 0) =
      append_assoc before (c ∷ []) (replicate left_over 0) in
    let here : length (before ++ (c ∷ [])) ≡ length before + 1 =
      omega (arith, length-append before (c ∷ [])) in
    let next =
      read_name_lem w rest (shown ++ (c ∷ [])) (before ++ (c ∷ [])) left_over h.1
        (omega (arith, here)) (omega arith) in
    let written : before ++ ((c ∷ []) ++ (w ++ replicate (left_over - length w) 0))
        ≡ (before ++ (c ∷ [])) ++ (w ++ replicate (left_over - length w) 0) =
      sym (append_assoc before (c ∷ []) (w ++ replicate (left_over - length w) 0)) in
    let count : length before + suc (length w) ≡ length (before ++ (c ∷ [])) + length w =
      omega (arith, here) in
    let left : suc left_over - suc (length w) ≡ left_over - length w = omega arith in
    read_name-stored c (length before) (w ++ (b'\n' ∷ rest)) shown
      (before ++ replicate (suc left_over) 0) h.0 (omega arith)
    ∙ (rw
        (
          set-middle before (replicate left_over 0) 0 c,
          count,
          left,
          written,
          sym same,
          sym here,
          sym (append_assoc shown (c ∷ []) w),
        )
        next)

text_of-zeros :
    (w : List ℕ) (left_over : ℕ) → All IsStored w → text_of (w ++ replicate left_over 0) ≡ w
unfolding text_of
text_of-zeros [] zero h = refl
text_of-zeros [] (suc left_over) h = refl
text_of-zeros (c ∷ w) left_over h =
    let e : (c == 0) ≡ false = ground (arith, h.0.0) in rw (e, text_of-zeros w left_over h.1) refl

abbrev pub question : List ℕ
question = codes "Please enter your username (up to 20 characters): "

printf-question :
    printf (codes "Please enter your username (up to %d characters): ") (int max_username_size ∷ [])
    ≡ done (question, length question)
unfolding printf vfprintf print_arg put_dec put_number fputsn strchr fputc write sys_write
    write_from num_to_base low_digits digit swap_ends
printf-question = refl

fprintf-too_long : fprintf stderr (codes "\nToo long...\n") [] ≡ done (codes "\nToo long...\n", 13)
unfolding fprintf vfprintf strchr fputc write sys_write write_from
fprintf-too_long = refl

-- The shell asks for the name and shows the line that is typed. A line of at most 256 characters that are
-- stored is taken as the name if it has 1 to 19 of them; an empty line, or one of 21 or more, which it
-- says is too long, makes the shell ask again. With 20, which the shell accepts, the copy of the name is
-- written past its array.
pub _get_username_lem :
    (fuel : ℕ) (w rest : List ℕ)
    → All IsStored w
    → length w ≤ buffer_size
    → _get_username (suc fuel) (w ++ (b'\n' ∷ rest)) ≡ (
        if length w == 0
        then ask_again (question ++ (b'\n' ∷ [])) (_get_username fuel rest)
        else if ltb max_username_size (length w)
        then ask_again ((question ++ w) ++ codes "\nToo long...\n") (_get_username fuel rest)
        else if length w == max_username_size
        then fault
        else done (question ++ w, w, rest))
unfolding _get_username putchar
_get_username_lem fuel w rest h fits =
    let count : 0 + length w ≡ length w = omega arith in
    let stored = rw count at (read_name_lem w rest question [] buffer_size h refl fits) in
    let text = text_of-zeros w (buffer_size - length w) h in
    rw
      (printf-question, stored, text, fprintf-too_long, fputc_lem b'\n' (λ e. absurd (omega arith)))
      (elim (Bool-cases (length w == 0)) [
        | inl e ↦ rw (e, empty w (ground arith)) refl
        | inr e ↦ rw e (elim (Bool-cases (ltb max_username_size (length w))) [
          | inl f ↦ rw f refl
          | inr f ↦ rw f (elim (Bool-cases (length w == max_username_size)) [
            | inl g ↦
                let full : ltb (length w) max_username_size ≡ false = ground arith in
                rw (g, full) refl
            | inr g ↦
                let fits : ltb (length w) max_username_size ≡ true = ground arith in
                rw (g, fits) refl
          ])
        ])
      ])
  where
    empty : (w : List ℕ) → length w ≡ 0 → w ≡ []
    empty [] h = refl
    empty (c ∷ w) h = absurd (omega arith)
