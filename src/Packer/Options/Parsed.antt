-- ===== src/Packer/Options/Parsed.antt =====
-- What the packer does with a command line.
use so_realtime.Prelude.{
  ℕ, zero, suc, ◌+◌, ◌-◌, ◌≡◌, ◌∙◌, refl, sym, ap, true, false, Bool, Bool-cases, inl, inr, Option,
  none, some, List, [], ◌∷◌, ◌++◌, append_assoc, append-nil, length, length-append, take, replicate,
  set-middle, map, All, ltb, ◌==◌, if◌then◌else◌, codes, arith, done, fault, ◌>>=◌,
}
use so_realtime.Packer.{pack}
use so_realtime.Packer.Options.{
  Name, Arguments, Event, Exit, max_files, defaults, parse_opt, call_all, given, exit_with,
  packer_main, numbered, told, IsPlain, IsArgp, Argp,
}

-- The keys that `parse_opt` does not know change nothing.
call_all-told :
    (es : List Event) (a : Arguments) → call_all parse_opt (told es) a ≡ call_all parse_opt es a
unfolding call_all parse_opt
call_all-told [] a = refl
call_all-told (Event.other ∷ es) a = call_all-told es a
call_all-told (Event.output name ∷ es) a = call_all-told es (record a { output_file = name })
call_all-told (Event.arg i name ∷ es) a = elim (Bool-cases (ltb i max_files)) [
  | inl e ↦ rw e (call_all-told es _)
  | inr e ↦ rw e refl
]
call_all-told (Event.args_end i ∷ es) a = elim (Bool-cases (ltb i 1)) [
  | inl e ↦ rw e refl
  | inr e ↦ rw e (call_all-told es _)
]

-- The arguments with these names stored, and room for `left` more.
abbrev stored : List Name → ℕ → Name → ℕ → Arguments
stored names left output count = record {
  args = map some names ++ replicate left none;
  output_file = output;
  count = count;
}

length-map-some : (names : List Name) → length (map some names) ≡ length names
length-map-some [] = refl
length-map-some (n ∷ ns) = ap suc (length-map-some ns)

map-snoc :
    (ns : List Name) (n : Name) (rest : List (Option Name))
    → map some ns ++ (some n ∷ rest) ≡ map some (ns ++ (n ∷ [])) ++ rest
map-snoc [] n rest = refl
map-snoc (m ∷ ns) n rest = ap (λ l. some m ∷ l) (map-snoc ns n rest)

-- The names behind those that are stored.
call_all-numbered :
    (names before : List Name) (left : ℕ) (output : Name)
    → length before + left ≡ max_files
    → call_all parse_opt (numbered (length before) names) (stored before left output 0) ≡ (
        if length (before ++ names) == 0
        then done none
        else if ltb left (length names)
        then fault
        else done (
            some
              (stored (before ++ names) (left - length names) output (length (before ++ names)))))
unfolding call_all parse_opt
call_all-numbered [] before left output e =
    let fits : ltb left 0 ≡ false = ground arith in
    let all_left : left - 0 ≡ left = omega arith in
    rw (append-nil before, fits, all_left)
      (elim (Bool-cases (length before == 0)) [
        | inl f ↦ let one : ltb (length before) 1 ≡ true = ground arith in rw (f, one) refl
        | inr f ↦ let one : ltb (length before) 1 ≡ false = ground arith in rw (f, one) refl
      ])
call_all-numbered (n ∷ ns) before zero output e =
    let full : ltb (length before) max_files ≡ false = ground arith in
    let more : (length (before ++ (n ∷ ns)) == 0) ≡ false =
      ground (arith, length-append before (n ∷ ns)) in
    let over : ltb 0 (length (n ∷ ns)) ≡ true = ground arith in rw (full, more, over) refl
call_all-numbered (n ∷ ns) before (suc left) output e =
    let room : ltb (length before) max_files ≡ true = ground arith in
    let here =
      rw (length-map-some before) at
        (set-middle (map some before) (replicate left none) none (some n)) in
    let count : length (before ++ (n ∷ [])) ≡ length before + 1 =
      omega (arith, length-append before (n ∷ [])) in
    let next = call_all-numbered ns (before ++ (n ∷ [])) left output (omega (arith, count)) in
    let same : ltb (suc left) (length (n ∷ ns)) ≡ ltb left (length ns) = ground arith in
    let fewer : suc left - length (n ∷ ns) ≡ left - length ns = omega arith in
    rw (room, here, map-snoc before n (replicate left none), same, fewer)
      (rw (append_assoc before (n ∷ []) ns) at (rw count at next))

given-map : (names : List Name) → given (map some names) ≡ done names
unfolding given
given-map [] = refl
given-map (n ∷ ns) = rw (given-map ns) refl

take-map-some :
    (names : List Name) (rest : List (Option Name))
    → take (length names) (map some names ++ rest) ≡ map some names
take-map-some [] rest = refl
take-map-some (n ∷ ns) rest = ap (λ l. some n ∷ l) (take-map-some ns rest)

-- The words of a command line that names the output or not.
abbrev pub command_line : Option Name → List Name → List Name
command_line none names = names
command_line (some output) names = codes "-o" ∷ output ∷ names

abbrev pub output_of : Option Name → Name
output_of none = codes "packedKernel.bin"
output_of (some output) = output

module _ (argp : Argp) (read : Name → Option (List ℕ)) (can_create : Name → Bool) where
  call_all-command_line :
      IsArgp argp
      → (output : Option Name) (names : List Name) → All IsPlain names
      → argp parse_opt (command_line output names) defaults
        ≡ call_all parse_opt (numbered 0 names) (stored [] max_files (output_of output) 0)
  unfolding call_all parse_opt
  call_all-command_line lawful none names plain =
      lawful.runs parse_opt names defaults
      ∙ sym (call_all-told (lawful.calls names) defaults)
      ∙ ap (λ es. call_all parse_opt es defaults) (lawful.files names plain)
  call_all-command_line lawful (some output) names plain =
      lawful.runs parse_opt (codes "-o" ∷ output ∷ names) defaults
      ∙ sym (call_all-told (lawful.calls (codes "-o" ∷ output ∷ names)) defaults)
      ∙ ap (λ es. call_all parse_opt es defaults) (lawful.option output names plain)

  -- The packer on names of files, with "-o" and a name in front of them or not, where `argp_parse` does
  -- what its library documents. Without a file it shows how it is used; more than 128 names overrun their
  -- array; else it packs the files, in the order in which they are named, into the file that "-o" names, or
  -- into packedKernel.bin.
  pub packer_main_lem :
      IsArgp argp
      → (output : Option Name) (names : List Name) → All IsPlain names
      → packer_main argp read can_create (command_line output names) ≡ (
          if length names == 0
          then done Exit.usage
          else if ltb max_files (length names)
          then fault
          else (pack (map read names) (can_create (output_of output)) >>= λ r.
              done (exit_with (output_of output) r)))
  unfolding packer_main
  packer_main_lem lawful output names plain =
      rw
        (
          call_all-command_line lawful output names plain,
          call_all-numbered names [] max_files (output_of output) refl,
        )
        (elim (Bool-cases (length names == 0)) [
          | inl e ↦ rw e refl
          | inr e ↦ rw e (elim (Bool-cases (ltb max_files (length names))) [
            | inl f ↦ rw f refl
            | inr f ↦
                rw
                  (
                    f,
                    take-map-some names (replicate (max_files - length names) none),
                    given-map names,
                  )
                  refl
          ])
        ])
