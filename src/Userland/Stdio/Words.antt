-- ===== src/Userland/Stdio/Words.antt =====
-- Words, characters and other text in a line that is scanned.
use so_realtime.Prelude.{
  ℕ, zero, suc, ◌+◌, ◌<◌, ◌≡◌, ◌≢◌, ◌∙◌, ap, refl, true, false, ◌||◌, List, [], ◌∷◌, ◌++◌, map,
  length, drop-append, length-append, All, ltb, ◌==◌, arith, done,
}
use so_realtime.Userland.Ctype.{isspace}
use so_realtime.Userland.Strings.{strchr}
use so_realtime.Userland.Numbers.{print_dec}
use so_realtime.Userland.Stdio.Scanned.{sscanf-silent}
use so_realtime.Userland.Stdio.{
  Arg, str, int, read_arg, read_str, skip_spaces, scan_from, Ending, sscanf,
}
use so_realtime.Userland.Stdio.Fields.{Fits, number_formats, longer, scan_from-spaced}
use so_realtime.Shell.Args.{spaced}

-- A character that "%s" reads, with this one behind the format.
abbrev pub IsField : ℕ → ℕ → Type 0
IsField nextchar c = (isspace c ≡ false) × (c ≢ 0) × (c ≢ 255) × (c ≢ nextchar)

read_str-append :
    (name rest : List ℕ) (nextchar : ℕ)
    → All (IsField nextchar) name
    → read_str (name ++ (nextchar ∷ rest)) nextchar ≡ name
unfolding read_str
read_str-append [] rest nextchar h =
    let stop : (isspace nextchar || nextchar == 0 || nextchar == 255 || nextchar == nextchar)
        ≡ true =
      ground arith in
    rw stop refl
read_str-append (c ∷ name) rest nextchar ((a, b, e, f), h) =
    let stays : (isspace c || c == 0 || c == 255 || c == nextchar) ≡ false = ground arith in
    rw (stays, read_str-append name rest nextchar h) refl

skip_spaces-word : (c : ℕ) (cs : List ℕ) → isspace c ≡ false → skip_spaces (c ∷ cs) ≡ c ∷ cs
unfolding skip_spaces
skip_spaces-word c cs h = rw h refl

-- One round of the loop on a word.
pub scan_word :
    (fuel c nextchar : ℕ) (name rest frest : List ℕ) (read : ℕ) (values : List Arg)
    → All (IsField nextchar) (c ∷ name)
    → scan_from
        (suc fuel)
        (c ∷ (name ++ (nextchar ∷ rest)))
        (b'%' ∷ b's' ∷ nextchar ∷ frest)
        read
        values
      ≡ scan_from fuel
          (nextchar ∷ rest)
          (nextchar ∷ frest)
          (read + 1)
          (values ++ (str (c ∷ name) ∷ []))
unfolding scan_from read_arg skip_spaces isspace strchr
scan_word fuel c nextchar name rest frest read values k =
    let enough : ltb (suc (length (name ++ (nextchar ∷ rest)))) (suc (length name)) ≡ false =
      ground (arith, length-append name (nextchar ∷ rest)) in
    let more : (suc (length (name ++ (nextchar ∷ rest))) == 0) ≡ false = ground arith in
    let format : (suc (suc (suc (length frest))) == 0) ≡ false = ground arith in
    let found : (suc (length name) == 0) ≡ false = ground arith in
    rw
      (
        more,
        format,
        skip_spaces-word c (name ++ (nextchar ∷ rest)) k.0.0,
        read_str-append (c ∷ name) rest nextchar k,
        found,
        enough,
        drop-append name (nextchar ∷ rest),
      )
      refl

-- One round of the loop on a character.
pub scan_char :
    (fuel c : ℕ) (rest frest : List ℕ) (read : ℕ) (values : List Arg)
    → isspace c ≡ false
    → scan_from (suc fuel) (c ∷ rest) (b'%' ∷ b'c' ∷ frest) read values
      ≡ scan_from fuel rest frest (read + 1) (values ++ (int c ∷ []))
unfolding scan_from read_arg skip_spaces isspace strchr
scan_char fuel c rest frest read values k =
    let more : (suc (length rest) == 0) ≡ false = ground arith in
    let format : (suc (suc (length frest)) == 0) ≡ false = ground arith in
    let enough : ltb (suc (length rest)) 1 ≡ false = ground arith in
    rw (more, format, skip_spaces-word c rest k, enough) refl

-- A character that stands for itself in a format.
abbrev pub IsLiteral : ℕ → Type 0
IsLiteral c = (isspace c || c == b'%') ≡ false

-- The rounds on characters that stand for themselves.
pub scan_literals :
    (lits rest frest : List ℕ) (n fuel read : ℕ) (values : List Arg)
    → n ≡ length lits + fuel
    → All IsLiteral lits
    → scan_from n (lits ++ rest) (lits ++ frest) read values ≡ scan_from fuel rest frest read values
unfolding scan_from
scan_literals [] rest frest n fuel read values e h =
    let same : n ≡ fuel = omega arith in rw same refl
scan_literals (c ∷ lits) rest frest zero fuel read values e h = absurd (omega arith)
scan_literals (c ∷ lits) rest frest (suc n) fuel read values e (p, h) =
    let k : isspace c ≡ false = ground arith in
    let more : (suc (length (lits ++ rest)) == 0) ≡ false = ground arith in
    let format : (suc (length (lits ++ frest)) == 0) ≡ false = ground arith in
    let plain : (c == b'%') ≡ false = ground arith in
    let same : (c == c) ≡ true = ground arith in
    rw
      (
        more,
        format,
        skip_spaces-word c (lits ++ rest) k,
        skip_spaces-word c (lits ++ frest) k,
        plain,
        same,
        format,
      )
      (scan_literals lits rest frest n fuel read values (omega arith) h)

-- A word and at least one number.
pub sscanf-named :
    (name : List ℕ) (n : ℕ) (ns : List ℕ)
    → 0 < length name
    → All (IsField b' ') name
    → Fits (n ∷ ns)
    → sscanf (name ++ spaced (map print_dec (n ∷ ns))) (b'%' ∷ b's' ∷ number_formats (n ∷ ns))
      ≡ done (length ns + 2, str name ∷ map int (n ∷ ns), [])
sscanf-named [] n ns h k f = absurd (omega arith)
sscanf-named (c ∷ name) n ns h k f =
    let fmt = b'%' ∷ b's' ∷ number_formats (n ∷ ns) in
    let fuel : length fmt + 1 ≡ suc (length fmt) = omega arith in
    sscanf-silent ((c ∷ name) ++ spaced (map print_dec (n ∷ ns))) fmt (length ns + 2)
      (str (c ∷ name) ∷ map int (n ∷ ns))
      (rw fuel (
        scan_word (length fmt) c b' ' name (print_dec n ++ spaced (map print_dec ns))
          (b'%' ∷ b'd' ∷ number_formats ns) 0 [] k
        ∙ scan_from-spaced (length fmt) (n ∷ ns) 1 (str (c ∷ name) ∷ []) (omega (arith, longer ns))
            f
        ∙ ap (λ (r : ℕ). done (r, str (c ∷ name) ∷ map int (n ∷ ns), Ending.silent)) (omega arith)))
