-- ===== src/Userland/Stdio/Fields.antt =====
-- A line of several fields that was printed is scanned back.
use so_realtime.Prelude.{
  ℕ, zero, suc, ◌+◌, ◌^◌, ◌<◌, ◌≡◌, ◌∙◌, ap, ap₂, sym, refl, false, ◌||◌, inl, inr, List, [], ◌∷◌,
  ◌++◌, map, length, drop-append, length-append, append-nil, append_assoc, All, ltb, ◌==◌, arith,
  done, Ensures,
}
use so_realtime.Syscalls.{stdout}
use so_realtime.Userland.Ctype.{isspace}
use so_realtime.Userland.Strings.{strchr}
use so_realtime.Userland.Numbers.{print_dec, read_dec}
use so_realtime.Userland.Numbers.Decimal.{read_dec-print_dec, print_dec-IsNumeral, IsNumeral, Stops}
use so_realtime.Userland.Stdio.Printed.{put_dec_lem, fputc_lem}
use so_realtime.Userland.Stdio.Scanned.{sscanf-silent}
use so_realtime.Userland.Stdio.{
  Arg, int, read_arg, skip_spaces, finish, printf, vfprintf, print_arg, scan_from, Ending, sscanf,
}
use so_realtime.Shell.Args.{spaced}

-- The format of that many numbers, each behind a space.
abbrev pub number_formats : List ℕ → List ℕ
number_formats [] = []
number_formats (n ∷ ns) = b' ' ∷ b'%' ∷ b'd' ∷ number_formats ns

abbrev pub Fits : List ℕ → Type 0
Fits ns = All (λ n. n < 2 ^ 32) ns

pub skip_spaces-IsNumeral :
    (cs rest : List ℕ) → IsNumeral cs → (0 < length cs) × (skip_spaces (cs ++ rest) ≡ cs ++ rest)
unfolding skip_spaces isspace
skip_spaces-IsNumeral [] rest h = absurd h
skip_spaces-IsNumeral (c ∷ cs) rest (inl h) = (omega arith, ground arith)
skip_spaces-IsNumeral (c ∷ cs) rest (inr h) = (omega arith, ground arith)

-- One round of the loop on a number.
pub scan_number :
    (fuel number : ℕ) (buffer fmt cs rest frest : List ℕ) (read : ℕ) (values : List Arg)
    → 0 < length buffer
    → 0 < length fmt
    → skip_spaces buffer ≡ cs ++ rest
    → skip_spaces fmt ≡ b'%' ∷ b'd' ∷ frest
    → 0 < length cs
    → read_dec (cs ++ rest) ≡ (number, length cs)
    → scan_from (suc fuel) buffer fmt read values
      ≡ scan_from fuel rest frest (read + 1) (values ++ (int number ∷ []))
unfolding scan_from read_arg strchr
scan_number fuel number buffer fmt cs rest frest read values hb hf b f h r =
    let more : (length buffer == 0 || length fmt == 0) ≡ false = ground arith in
    let some_read : (length cs == 0) ≡ false = ground arith in
    let enough : ltb (length (cs ++ rest)) (length cs) ≡ false =
      ground (arith, length-append cs rest) in
    rw (more, b, f, r, some_read, enough, drop-append cs rest) refl

spaced-Stops : (ws : List (List ℕ)) → Stops (spaced ws)
spaced-Stops [] = tt
spaced-Stops (w ∷ ws) = refl

-- Numbers that each stand behind a space, from any round on.
pub scan_from-spaced :
    (fuel : ℕ) (ns : List ℕ) (read : ℕ) (values : List Arg)
    → length ns < fuel
    → Fits ns
    → scan_from fuel (spaced (map print_dec ns)) (number_formats ns) read values
      ≡ done (read + length ns, values ++ map int ns, Ending.silent)
unfolding scan_from finish skip_spaces isspace
scan_from-spaced zero ns read values h k = absurd (omega arith)
scan_from-spaced (suc fuel) [] read values h k =
    rw append-nil (ap (λ (r : ℕ). done (r, values, Ending.silent)) (omega arith))
scan_from-spaced (suc fuel) (n ∷ ns) read values h (k, ks) =
    let rest = spaced (map print_dec ns) in
    let (more, whole) = skip_spaces-IsNumeral (print_dec n) rest (print_dec-IsNumeral n) in
    scan_number fuel n (b' ' ∷ (print_dec n ++ rest)) (b' ' ∷ b'%' ∷ b'd' ∷ number_formats ns)
      (print_dec n) rest (number_formats ns) read values (omega arith) (omega arith) whole refl more
      (read_dec-print_dec n rest k (spaced-Stops (map print_dec ns)))
    ∙ scan_from-spaced fuel ns (read + 1) (values ++ (int n ∷ [])) (omega arith) ks
    ∙ ap₂ (λ (r : ℕ) (vs : List Arg). done (r, vs, Ending.silent)) (omega arith)
        (append_assoc values (int n ∷ []) (map int ns))

-- What the numbers print as, with a space between two of them.
abbrev pub printed : ℕ → List ℕ → List ℕ
printed n ns = print_dec n ++ spaced (map print_dec ns)

abbrev pub printed_format : List ℕ → List ℕ
printed_format ns = b'%' ∷ b'd' ∷ number_formats ns

pub longer : (ns : List ℕ) → length ns < suc (suc (length (number_formats ns)))
longer [] = omega arith
longer (m ∷ ms) = omega (arith, longer ms)

sscanf-printed :
    (n : ℕ) (ns : List ℕ)
    → Fits (n ∷ ns)
    → sscanf (printed n ns) (printed_format ns) ≡ done (length ns + 1, map int (n ∷ ns), [])
unfolding skip_spaces isspace
sscanf-printed n ns (h, hs) =
    let rest = spaced (map print_dec ns) in
    let (more, whole) = skip_spaces-IsNumeral (print_dec n) rest (print_dec-IsNumeral n) in
    let fuel : length (printed_format ns) + 1 ≡ suc (length (printed_format ns)) = omega arith in
    sscanf-silent (printed n ns) (printed_format ns) (length ns + 1) (map int (n ∷ ns)) (
      rw fuel (
        scan_number (length (printed_format ns)) n (printed n ns) (printed_format ns) (print_dec n)
          rest (number_formats ns) 0 [] (omega (arith, length-append (print_dec n) rest))
          (omega arith) whole refl more
          (read_dec-print_dec n rest h (spaced-Stops (map print_dec ns)))
        ∙ scan_from-spaced (length (printed_format ns)) ns 1 (int n ∷ []) (longer ns) hs
        ∙ ap (λ (r : ℕ). done (r, int n ∷ map int ns, Ending.silent)) (omega arith)))

vfprintf-spaced :
    (ns : List ℕ)
    → vfprintf stdout (number_formats ns) (map int ns)
      ≡ done (spaced (map print_dec ns), length (spaced (map print_dec ns)))
unfolding vfprintf print_arg strchr
vfprintf-spaced [] = refl
vfprintf-spaced (n ∷ ns) =
    rw (put_dec_lem n, fputc_lem b' ' (λ e. absurd (omega arith)), vfprintf-spaced ns)
      (ap (λ (k : ℕ). done (b' ' ∷ printed n ns, k))
        (omega (arith, length-append (print_dec n) (spaced (map print_dec ns)))))

printf-printed :
    (n : ℕ) (ns : List ℕ)
    → printf (printed_format ns) (int n ∷ map int ns) ≡ done (printed n ns, length (printed n ns))
unfolding printf vfprintf print_arg strchr
printf-printed n ns =
    rw (put_dec_lem n, vfprintf-spaced ns)
      (ap (λ (k : ℕ). done (printed n ns, k))
        (sym (length-append (print_dec n) (spaced (map print_dec ns)))))

-- `printf` with a format of one or more "%d", each behind the first after a space, prints as many `int`s,
-- and `sscanf` with the same format then converts them all from what was printed, and stores the same
-- `int`s in the same order.
pub sscanf-printf :
    (n : ℕ) (ns : List ℕ)
    → Fits (n ∷ ns)
    → Ensures
        (λ w. sscanf w.0 (printed_format ns) ≡ done (length ns + 1, map int (n ∷ ns), []))
        (printf (printed_format ns) (map int (n ∷ ns)))
sscanf-printf n ns h = rw (printf-printed n ns) (sscanf-printed n ns h)
