-- ===== src/Shell/Args.antt =====
-- The arguments of a command line.
use so_realtime.Prelude.{
  ℕ, zero, suc, ◌≤◌, ◌<◌, ◌≡◌, ◌≢◌, refl, false, true, ◌||◌, ◌==◌, some, List, [], ◌∷◌, ◌++◌,
  append_assoc, length, drop, arith, All,
}
use so_realtime.Userland.Ctype.{isspace}
use so_realtime.Shell.{max_args, ignore_spaces, ignore_characters, word_of, args_from, parse_args}

-- A word holds no space and no 0, and at least one character.
abbrev pub IsWord : List ℕ → Type 0
IsWord w = (0 < length w) × All (λ c. (isspace c ≡ false) × (c ≢ 0)) w

-- The words, each with a space before it.
abbrev pub spaced : List (List ℕ) → List ℕ
spaced [] = []
spaced (w ∷ ws) = b' ' ∷ (w ++ spaced ws)

-- Two characters 0, and what else the buffer holds.
abbrev pub ended : List ℕ → List ℕ
ended more = 0 ∷ 0 ∷ more

-- What stands behind a word: a 0 or a space.
abbrev Ends : List ℕ → Type 0
Ends [] = ⊥
Ends (c ∷ cs) = (c == 0 || isspace c) ≡ true

spaced-Ends : (ws : List (List ℕ)) (more : List ℕ) → Ends (spaced ws ++ ended more)
unfolding isspace
spaced-Ends [] more = refl
spaced-Ends (w ∷ ws) more = refl

goes_on : (c : ℕ) → (isspace c ≡ false) × (c ≢ 0) → (c == 0 || isspace c) ≡ false
goes_on c (h, n) = ground arith

word_of-append :
    (w rest : List ℕ)
    → All (λ c. (isspace c ≡ false) × (c ≢ 0)) w
    → Ends rest
    → word_of (w ++ rest) ≡ w
unfolding word_of
word_of-append [] [] h e = refl
word_of-append [] (c ∷ cs) h e = rw (word_of, e)
word_of-append (c ∷ w) rest (hc, h) e = rw (word_of, goes_on c hc, word_of-append w rest h e)

ignore_characters-append :
    (w rest : List ℕ)
    → All (λ c. (isspace c ≡ false) × (c ≢ 0)) w
    → Ends rest
    → ignore_characters (w ++ rest) ≡ rest
unfolding ignore_characters
ignore_characters-append [] [] h e = refl
ignore_characters-append [] (c ∷ cs) h e = rw (ignore_characters, e)
ignore_characters-append (c ∷ w) rest (hc, h) e =
    rw (ignore_characters, goes_on c hc, ignore_characters-append w rest h e)

-- The buffer from the first word on, or behind the last one.
abbrev joined : List (List ℕ) → List ℕ → List ℕ
joined [] more = 0 ∷ more
joined (w ∷ ws) more = w ++ (spaced ws ++ ended more)

drop-spaced :
    (ws : List (List ℕ)) (more : List ℕ) → drop 1 (spaced ws ++ ended more) ≡ joined ws more
drop-spaced [] more = refl
drop-spaced (w ∷ ws) more = append_assoc w (spaced ws) (ended more)

ignore_spaces-joined :
    (ws : List (List ℕ)) (more : List ℕ)
    → All IsWord ws
    → ignore_spaces (joined ws more) ≡ joined ws more
unfolding ignore_spaces isspace
ignore_spaces-joined [] more h = refl
ignore_spaces-joined ([] ∷ ws) more h = absurd (omega (arith, h.0.0))
ignore_spaces-joined ((c ∷ w) ∷ ws) more h = rw (ignore_spaces, h.0.1.0.0)

args_from-joined :
    (left : ℕ) (ws : List (List ℕ)) (more : List ℕ)
    → All IsWord ws
    → length ws ≤ left
    → args_from left (joined ws more) ≡ some ws
unfolding args_from
args_from-joined zero [] more h fits = refl
args_from-joined (suc left) [] more h fits = refl
args_from-joined zero (w ∷ ws) more h fits = absurd (omega arith)
args_from-joined (suc left) ([] ∷ ws) more h fits = absurd (omega (arith, h.0.0))
args_from-joined (suc left) ((c ∷ w) ∷ ws) more h fits =
    let first : word_of (c ∷ (w ++ (spaced ws ++ ended more))) ≡ c ∷ w =
      word_of-append (c ∷ w) (spaced ws ++ ended more) h.0.1 (spaced-Ends ws more) in
    let passed =
      ignore_characters-append (c ∷ w) (spaced ws ++ ended more) h.0.1 (spaced-Ends ws more) in
    let visible : (c == 0) ≡ false = ground (arith, h.0.1.0.1) in
    rw
      (
        args_from,
        passed,
        visible,
        nonempty ws more,
        drop-spaced ws more,
        ignore_spaces-joined ws more h.1,
        args_from-joined left ws more h.1 (omega arith),
        first,
      )
      refl
  where
    nonempty :
        (ws : List (List ℕ)) (more : List ℕ) → (length (spaced ws ++ ended more) == 0) ≡ false
    nonempty [] more = ground arith
    nonempty (w ∷ ws) more = ground arith

-- `parse_args` splits a line of at most `MAX_ARGS` words, each behind a space, into these words, where two
-- characters 0 stand behind them.
pub parse_args_lem :
    (ws : List (List ℕ)) (more : List ℕ)
    → All IsWord ws
    → length ws ≤ max_args
    → parse_args (spaced ws ++ ended more) ≡ some ws
unfolding parse_args ignore_spaces isspace
parse_args_lem [] more h fits = args_from-joined max_args [] (0 ∷ more) h fits
parse_args_lem (w ∷ ws) more h fits =
    rw (append_assoc w (spaced ws) (ended more), ignore_spaces-joined (w ∷ ws) more h)
      (args_from-joined max_args (w ∷ ws) more h fits)
