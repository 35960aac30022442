-- ===== src/Userland/Strings/Search.antt =====
-- `strchr`, `prefix` and `strstr`.
use so_realtime.Prelude.{
  ℕ, ◌+◌, ◌≡◌, ◌≢◌, inl, inr, refl, Option, none, some, List, [], ◌∷◌, ◌++◌, length, ◌==◌,
  if◌then◌else◌, arith, All, Bool, true, false, Bool-cases,
}
use so_realtime.Userland.Strings.{strchr, Scan, scan, search_from, strstr, prefix_from, prefix}

-- Is the first string the front of the second one?
pub is_prefix : List ℕ → List ℕ → Bool
is_prefix [] ds = true
is_prefix (c ∷ cs) [] = false
is_prefix (c ∷ cs) (d ∷ ds) = if c == d then is_prefix cs ds else false

prefix_from_lem :
    (i : ℕ) (s t : List ℕ) → prefix_from i s t ≡ (if is_prefix s t then length s + i else 0)
unfolding prefix_from is_prefix
prefix_from_lem i [] t = omega arith
prefix_from_lem i (c ∷ cs) [] = refl
prefix_from_lem i (c ∷ cs) (d ∷ ds) = ground (arith, prefix_from_lem (i + 1) cs ds)

-- `prefix` answers the length of the first string if it is the front of the second one, and 0 if not.
pub prefix_lem : (s t : List ℕ) → prefix s t ≡ (if is_prefix s t then length s else 0)
unfolding prefix
prefix_lem s t = ground (arith, prefix_from_lem 0 s t)

-- What `strchr` answers is the rest of the string from the first place of the character on, or NULL
-- where it does not occur.
abbrev pub FirstPlace : List ℕ → ℕ → Option (List ℕ) → Type 0
FirstPlace s c none = All (λ d. d ≢ c) s
FirstPlace s c (some t) =
    (front : List ℕ) × (rest : List ℕ) × (s ≡ front ++ t) × (t ≡ c ∷ rest) × All (λ d. d ≢ c) front

FirstPlace-cons :
    (d : ℕ) (ds : List ℕ) (c : ℕ) (o : Option (List ℕ))
    → d ≢ c
    → FirstPlace ds c o
    → FirstPlace (d ∷ ds) c o
FirstPlace-cons d ds c none ne h = (ne, h)
FirstPlace-cons d ds c (some t) ne (front, rest, e, e', h) = (d ∷ front, rest, rw e, e', (ne, h))

-- `strchr` answers the rest of the string from the first place of the character on, or NULL where the
-- character does not occur.
pub strchr_lem : (s : List ℕ) (c : ℕ) → FirstPlace s c (strchr s c)
unfolding strchr
strchr_lem [] c = tt
strchr_lem (d ∷ ds) c = elim (Bool-cases (d == c)) [
  | inl e ↦ let q : d ≡ c = ground arith in rw e ([], ds, refl, rw q, tt)
  | inr n ↦ rw n (FirstPlace-cons d ds c (strchr ds c) (ground arith) (strchr_lem ds c))
]

scan-matched : (s t : List ℕ) → scan s (s ++ t) ≡ Scan.matched
unfolding scan
scan-matched [] t = refl
scan-matched (c ∷ cs) t = ground (arith, scan-matched cs t)

-- `strstr` finds a string that is not empty at the front of a text.
pub strstr-front : (c : ℕ) (s t : List ℕ) → strstr (c ∷ s) (c ∷ (s ++ t)) ≡ some (c ∷ (s ++ t))
unfolding strstr search_from
strstr-front c s t = rw (search_from, scan-matched (c ∷ s) t)

-- At the second place of a text, `strstr` looks for the string without its first character: for a string
-- of two characters it answers that place if the second character is there, whatever stands before.
pub strstr_skips : (a b d : ℕ) (t : List ℕ) → a ≢ d → strstr (a ∷ b ∷ []) (d ∷ b ∷ t) ≡ some (b ∷ t)
unfolding strstr search_from scan
strstr_skips a b d t h = ground arith
