-- ===== src/Commands/Fractal/Lines.antt =====
-- The lines of the data module, as `fractal` reads them.
use so_realtime.Prelude.{
  ℕ, zero, suc, ◌+◌, ◌-◌, ◌%◌, ◌^◌, ◌≤◌, ◌<◌, ◌≡◌, ◌≢◌, ◌∙◌, ◌⊎◌, ap, refl, true, false, inl, inr,
  ◌||◌, List, [], ◌∷◌, ◌++◌, map, length, length-append, append_assoc, append-nil, All, ltb, leb,
  ◌==◌, some, arith, codes, done,
}
use so_realtime.Graphics.{Ports}
use so_realtime.Fractals.{Doubles}
use so_realtime.Syscalls.{stddata, sys_write, write_from}
use so_realtime.Userland.Strings.{strchr}
use so_realtime.Userland.Ctype.{isspace}
use so_realtime.Userland.Numbers.{print_dec}
use so_realtime.Userland.Numbers.Digits.{IsDecimal}
use so_realtime.Userland.Numbers.Decimal.{print_dec-All}
use so_realtime.Userland.Stdio.{
  str, int, fgets, fgets_from, fscanf, sscanf, scan_from, finish, skip_spaces, complain, fprintf,
  vfprintf, print_arg, fputs, fputc, write,
}
use so_realtime.Userland.Stdio.Fields.{Fits}
use so_realtime.Userland.Stdio.Words.{IsField, sscanf-named}
use so_realtime.Shell.Args.{spaced}
use so_realtime.Commands.{refuse, shows}
use so_realtime.Commands.Fractal.{
  View, Parameters, name_size, name_fits, parameters, data_format, show_mandelbrot,
  mandelbrot_lines,
}

abbrev pub numbers : Parameters → List ℕ
numbers p =
    p.iter ∷ p.inside.0 ∷ p.inside.1 ∷ p.inside.2 ∷ p.outside.0 ∷ p.outside.1 ∷ p.outside.2 ∷ []

-- The parameters as a line of the data: the name, and the numbers in decimal.
abbrev pub line_of : Parameters → List ℕ
line_of p = p.name ++ spaced (map print_dec (numbers p))

-- A character that `fgets` stores.
abbrev pub IsStored : ℕ → Type 0
IsStored c = (c < 128) × (c ≢ 0) × (c ≢ 8) × (c ≢ b'\n')

abbrev pub IsNamed : List ℕ → Type 0
IsNamed name = (0 < length name) × (length name < name_size) × All (λ c. (32 < c) × (c < 128)) name

-- Parameters that a line can give: a name of one to four visible characters, a positive number of rounds
-- or 0, and bytes as colors, which together take fewer than 64 characters.
pub record IsEntry (p : Parameters) : Type 0 where
  pub named : IsNamed p.name
  pub positive : p.iter < 2 ^ 31
  pub inside : (p.inside.0 < 256) × (p.inside.1 < 256) × (p.inside.2 < 256)
  pub outside : (p.outside.0 < 256) × (p.outside.1 < 256) × (p.outside.2 < 256)
  pub short : length (line_of p) < 64

fgets_from-line :
    (line read more : List ℕ)
    → All IsStored line
    → length read + length line ≤ 64
    → fgets_from stddata 64 read [] (line ++ (b'\n' ∷ more)) ≡ done (some (read ++ line), [], more)
unfolding fgets_from
fgets_from-line [] read more h k = rw append-nil refl
fgets_from-line (c ∷ line) read more ((a, b, e, n), h) k =
    let not_end : (c == 255) ≡ false = ground arith in
    let stored : (c == b'\n' || leb 64 (length read)) ≡ false = ground arith in
    let kept : (c == 0 || leb 128 c) ≡ false = ground arith in
    let plain : (c == 8) ≡ false = ground arith in
    rw (not_end, stored, kept, plain)
      (fgets_from-line line (read ++ (c ∷ [])) more h (omega (arith, length-append read (c ∷ [])))
        ∙ ap (λ l. done (some l, [], more)) (append_assoc read (c ∷ []) line))

pub All-append {ℓ} :
    {A : Type ℓ} (P : A → Type 0) (xs ys : List A) → All P xs → All P ys → All P (xs ++ ys)
All-append P [] ys h k = k
All-append P (x ∷ xs) ys h k = (h.0, All-append P xs ys h.1 k)

pub print_dec-IsStored : (cs : List ℕ) → All (λ c. IsDecimal c ⊎ (c ≡ b'-')) cs → All IsStored cs
print_dec-IsStored [] h = tt
print_dec-IsStored (c ∷ cs) (inl d, h) = (omega arith, print_dec-IsStored cs h)
print_dec-IsStored (c ∷ cs) (inr d, h) = (omega arith, print_dec-IsStored cs h)

spaced-IsStored : (ns : List ℕ) → All IsStored (spaced (map print_dec ns))
spaced-IsStored [] = tt
spaced-IsStored (n ∷ ns) = (
  omega arith,
  All-append IsStored (print_dec n) (spaced (map print_dec ns))
      (print_dec-IsStored (print_dec n) (print_dec-All n)) (spaced-IsStored ns),
)

name-IsStored : (cs : List ℕ) → All (λ c. (32 < c) × (c < 128)) cs → All IsStored cs
name-IsStored [] h = tt
name-IsStored (c ∷ cs) (h, hs) = (omega arith, name-IsStored cs hs)

name-IsField : (cs : List ℕ) → All (λ c. (32 < c) × (c < 128)) cs → All (IsField b' ') cs
unfolding isspace
name-IsField [] h = tt
name-IsField (c ∷ cs) (h, hs) =
    ((ground arith, omega arith, omega arith, omega arith), name-IsField cs hs)

module _ (p : Parameters) (e : IsEntry p) (more : List ℕ) where
  -- A line of the data that `fscanf` reads gives its parameters back.
  fscanf-line_of :
      fscanf stddata data_format (line_of p ++ (b'\n' ∷ more))
      ≡ done ((8, str p.name ∷ map int (numbers p), []), [], more)
  unfolding fscanf fgets
  fscanf-line_of =
      let stored =
        All-append IsStored p.name (spaced (map print_dec (numbers p)))
          (name-IsStored p.name e.named.2) (spaced-IsStored (numbers p)) in
      let read = fgets_from-line (line_of p) [] more stored (omega (arith, e.short)) in
      let room : ltb (length (line_of p)) 64 ≡ true = ground (arith, e.short) in
      let fits : Fits (numbers p) = omega (arith, e.positive, e.inside, e.outside) in
      rw
        (
          read,
          room,
          sscanf-named p.name p.iter
              (p.inside.0 ∷ p.inside.1 ∷ p.inside.2 ∷ p.outside.0 ∷ p.outside.1 ∷ p.outside.2 ∷ [])
              e.named.0 (name-IsField p.name e.named.2) fits,
        )
        refl

  parameters-numbers : parameters (8, str p.name ∷ map int (numbers p), []) ≡ some p
  unfolding parameters
  parameters-numbers =
      let a : p.inside.0 % 256 ≡ p.inside.0 = omega (arith, e.inside) in
      let b : p.inside.1 % 256 ≡ p.inside.1 = omega (arith, e.inside) in
      let c : p.inside.2 % 256 ≡ p.inside.2 = omega (arith, e.inside) in
      let x : p.outside.0 % 256 ≡ p.outside.0 = omega (arith, e.outside) in
      let y : p.outside.1 % 256 ≡ p.outside.1 = omega (arith, e.outside) in
      let z : p.outside.2 % 256 ≡ p.outside.2 = omega (arith, e.outside) in
      rw (a, b, c, x, y, z) refl

-- A line for each of the parameters, and an empty one.
abbrev pub data_of : List Parameters → List ℕ → List ℕ
data_of [] more = b'\n' ∷ more
data_of (p ∷ ps) more = line_of p ++ (b'\n' ∷ data_of ps more)

-- What the empty line makes the code show.
abbrev pub complaint : List ℕ
complaint = codes "Wrong format, expected '%s %d %d %d %d %d %d %d'\n"

fscanf-empty :
    (more : List ℕ)
    → fscanf stddata data_format (b'\n' ∷ more)
      ≡ done ((2 ^ 32 - 1, [], complaint), complaint, more)
unfolding fscanf fgets fgets_from sscanf scan_from finish skip_spaces isspace complain fprintf
    vfprintf strchr print_arg fputs fputc write sys_write write_from
fscanf-empty more = refl

module _ {S D : Type 0} (ports : Ports S) (fl : Doubles D) (buffer : ℕ) where
  -- One round of the loop on a line of parameters.
  mandelbrot_lines-line_of :
      (fuel : ℕ) (p : Parameters) (more : List ℕ) (v : View S)
      → IsEntry p
      → v.data_text ≡ line_of p ++ (b'\n' ∷ more)
      → mandelbrot_lines ports fl buffer (suc fuel) v
        ≡ mandelbrot_lines ports fl buffer fuel
            (show_mandelbrot ports fl buffer p (record v { data_text = more }))
  unfolding mandelbrot_lines name_fits shows
  mandelbrot_lines-line_of fuel p more v e text =
      let fits : ltb (length p.name) name_size ≡ true = ground (arith, e.named) in
      rw (text, fscanf-line_of p e more, fits, parameters-numbers p e more) refl

  -- What the lines lead to.
  abbrev pub after_lines : List Parameters → List ℕ → View S → View S
  after_lines [] more v = record v { data_text = more }
  after_lines (p ∷ ps) more v =
      after_lines ps more
        (show_mandelbrot ports fl buffer p (record v { data_text = data_of ps more }))

  pub after_lines-data_text :
      (ps : List Parameters) (more : List ℕ) (v : View S) → (after_lines ps more v).data_text ≡ more
  after_lines-data_text [] more v = refl
  after_lines-data_text (p ∷ ps) more v =
      after_lines-data_text ps more
        (show_mandelbrot ports fl buffer p (record v { data_text = data_of ps more }))

  pub mandelbrot_lines-data_of :
      (fuel : ℕ) (ps : List Parameters) (more : List ℕ) (v : View S)
      → length ps < fuel
      → All IsEntry ps
      → v.data_text ≡ data_of ps more
      → mandelbrot_lines ports fl buffer fuel v
        ≡ shows complaint (refuse "Wrong format!\n" (after_lines ps more v))
  unfolding mandelbrot_lines name_fits parameters
  mandelbrot_lines-data_of zero ps more v h k text = absurd (omega arith)
  mandelbrot_lines-data_of (suc fuel) [] more v h k text = rw (text, fscanf-empty more) refl
  mandelbrot_lines-data_of (suc fuel) (p ∷ ps) more v h (e, k) text =
      mandelbrot_lines-line_of fuel p (data_of ps more) v e text
      ∙ mandelbrot_lines-data_of fuel ps more
          (show_mandelbrot ports fl buffer p (record v { data_text = data_of ps more }))
          (omega arith) k refl
