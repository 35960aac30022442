-- ===== src/Userland/Strings.antt =====
-- Userland/CodeModule/lib/string.c. A string is the list of its bytes before the terminator; a pointer
-- into it is the rest of the list from there on. A `char` from 128 on is negative.
pub mod Compare
pub mod Copy
pub mod Search
use so_realtime.Prelude.{
  ℕ, zero, suc, ◌+◌, ◌-◌, ◌%◌, ◌^◌, Bool, Option, none, some, List, [], ◌∷◌, set, drop, ltb, ◌==◌,
  if◌then◌else◌,
}

-- `-1` as an `int`
abbrev pub minus_one32 : ℕ
minus_one32 = 2 ^ 32 - 1

-- `a < b` for two values of type `char`
abbrev pub char_ltb : ℕ → ℕ → Bool
char_ltb a b = ltb ((a + 128) % 256) ((b + 128) % 256)

unfoldable pub strlen : List ℕ → ℕ
strlen [] = 0
strlen (c ∷ cs) = strlen cs + 1

unfoldable pub strcmp : List ℕ → List ℕ → ℕ
strcmp [] [] = 0
strcmp [] (d ∷ ds) = minus_one32
strcmp (c ∷ cs) [] = 1
strcmp (c ∷ cs) (d ∷ ds) =
    let rest = strcmp cs ds in
    if char_ltb d c then 1 else if char_ltb c d then minus_one32 else rest

-- A count below 0 does not stop the code; here the count is one from 0 on.
unfoldable pub strncmp : List ℕ → List ℕ → ℕ → ℕ
strncmp s1 s2 zero = 0
strncmp [] [] (suc n) = 0
strncmp [] (d ∷ ds) (suc n) = minus_one32
strncmp (c ∷ cs) [] (suc n) = 1
strncmp (c ∷ cs) (d ∷ ds) (suc n) =
    let rest = strncmp cs ds n in
    if char_ltb d c then 1 else if char_ltb c d then minus_one32 else rest

-- The loop of `strcpy`, with `to` as the place `i` of a buffer.
unfoldable pub copy_from : List ℕ → ℕ → List ℕ → List ℕ
copy_from [] i buffer = set buffer i 0
copy_from (c ∷ cs) i buffer = copy_from cs (i + 1) (set buffer i c)

-- What the buffer that `to` points to holds then. The code returns 0.
unfoldable pub strcpy : List ℕ → List ℕ → List ℕ
unfolding copy_from
strcpy from to = copy_from from 0 to

-- The loop of `strncpy`, as above.
unfoldable pub ncopy_from : List ℕ → ℕ → List ℕ → ℕ → List ℕ
ncopy_from [] i buffer n = set buffer i 0
ncopy_from (c ∷ cs) i buffer zero = set buffer i 0
ncopy_from (c ∷ cs) i buffer (suc n) = ncopy_from cs (i + 1) (set buffer i c) n

unfoldable pub strncpy : List ℕ → List ℕ → ℕ → List ℕ
unfolding ncopy_from
strncpy from to n = ncopy_from from 0 to n

-- `none` stands for `NULL`.
unfoldable pub strchr : List ℕ → ℕ → Option (List ℕ)
strchr [] c = none
strchr (d ∷ ds) c = let rest = strchr ds c in if d == c then some (d ∷ ds) else rest

-- How the loop of `strstr` leaves a start: at the end of the needle, at the end of the text, or at two
-- characters that differ.
pub data Scan : Type 0 where
  matched ended differs : Scan

unfoldable pub scan : List ℕ → List ℕ → Scan
scan [] ret = Scan.matched
scan (c ∷ cs) [] = Scan.ended
scan (c ∷ cs) (d ∷ ds) = let rest = scan cs ds in if c == d then rest else Scan.differs

-- The loop of `strstr` from a start on: `aux` is compared there, and `tail`, which is `str1 + 1`, at all
-- later starts.
unfoldable pub search_from : List ℕ → List ℕ → List ℕ → Option (List ℕ)
unfolding scan
search_from tail aux [] = elim (scan aux []) [ Scan.matched ↦ some [] | _ ↦ none ]
search_from tail aux (c ∷ cs) =
    let later = search_from tail tail cs in
    elim (scan aux (c ∷ cs)) [
      | Scan.matched ↦ some (c ∷ cs)
      | Scan.ended ↦ none
      | Scan.differs ↦ later
    ]

-- `str1` is looked for in `str2`. For an empty `str1` the code reads a variable that is not set.
unfoldable pub strstr : List ℕ → List ℕ → Option (List ℕ)
unfolding search_from
strstr str1 str2 = search_from (drop 1 str1) str1 str2

-- The loop of `prefix`: `i` is the count of characters passed.
unfoldable pub prefix_from : ℕ → List ℕ → List ℕ → ℕ
prefix_from i [] str2 = i
prefix_from i (c ∷ cs) [] = 0
prefix_from i (c ∷ cs) (d ∷ ds) = let rest = prefix_from (i + 1) cs ds in if c == d then rest else 0

unfoldable pub prefix : List ℕ → List ℕ → ℕ
unfolding prefix_from
prefix str1 str2 = prefix_from 0 str1 str2
