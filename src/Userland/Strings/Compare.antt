-- ===== src/Userland/Strings/Compare.antt =====
-- `strcmp` orders strings.
use so_realtime.Prelude.{
  ℕ, zero, suc, ◌-◌, ◌%◌, ◌^◌, ◌<◌, ◌≡◌, ◌↔◌, refl, ap₂, List, [], ◌∷◌, take, arith, All,
}
use so_realtime.Userland.Strings.{minus_one32, strcmp, strncmp}

abbrev pub IsByte : ℕ → Type 0
IsByte c = c < 256

strcmp_self : (s : List ℕ) → strcmp s s ≡ 0
unfolding strcmp
strcmp_self [] = refl
strcmp_self (c ∷ cs) = ground (arith, strcmp_self cs)

equal_of_strcmp : (s t : List ℕ) → All IsByte s → All IsByte t → strcmp s t ≡ 0 → s ≡ t
unfolding strcmp
equal_of_strcmp [] [] hs ht e = refl
equal_of_strcmp [] (d ∷ ds) hs ht e = absurd (omega arith)
equal_of_strcmp (c ∷ cs) [] hs ht e = absurd (omega arith)
equal_of_strcmp (c ∷ cs) (d ∷ ds) hs ht e =
    let same : c ≡ d = ground arith in
    let rest : strcmp cs ds ≡ 0 = ground arith in
    ap₂ (λ x xs. x ∷ xs) same (equal_of_strcmp cs ds hs.1 ht.1 rest)

-- `strcmp` answers 0 for equal strings of bytes, and for no others.
pub strcmp-eq-zero : (s t : List ℕ) → All IsByte s → All IsByte t → (strcmp s t ≡ 0) ↔ (s ≡ t)
strcmp-eq-zero s t hs ht = (equal_of_strcmp s t hs ht, λ e. rw e (strcmp_self t))

-- To exchange the strings exchanges -1 and 1.
pub strcmp_swap : (s t : List ℕ) → strcmp t s ≡ (2 ^ 32 - strcmp s t) % 2 ^ 32
unfolding strcmp
strcmp_swap [] [] = refl
strcmp_swap [] (d ∷ ds) = refl
strcmp_swap (c ∷ cs) [] = refl
strcmp_swap (c ∷ cs) (d ∷ ds) = ground (arith, strcmp_swap cs ds)

-- A string that `strcmp` puts before a second one, which it puts before a third, comes before the third.
pub strcmp_trans :
    (s t u : List ℕ)
    → strcmp s t ≡ minus_one32
    → strcmp t u ≡ minus_one32
    → strcmp s u ≡ minus_one32
unfolding strcmp
strcmp_trans [] [] [] h k = absurd (omega arith)
strcmp_trans [] (d ∷ ds) [] h k = absurd (omega arith)
strcmp_trans [] t (e ∷ es) h k = refl
strcmp_trans (c ∷ cs) [] u h k = absurd (omega arith)
strcmp_trans (c ∷ cs) (d ∷ ds) [] h k = absurd (omega arith)
strcmp_trans (c ∷ cs) (d ∷ ds) (e ∷ es) h k = ground (arith, strcmp_trans cs ds es)

-- `strncmp` compares the first `n` characters.
pub strncmp-eq-strcmp : (s t : List ℕ) (n : ℕ) → strncmp s t n ≡ strcmp (take n s) (take n t)
unfolding strcmp strncmp
strncmp-eq-strcmp s t zero = refl
strncmp-eq-strcmp [] [] (suc n) = refl
strncmp-eq-strcmp [] (d ∷ ds) (suc n) = refl
strncmp-eq-strcmp (c ∷ cs) [] (suc n) = refl
strncmp-eq-strcmp (c ∷ cs) (d ∷ ds) (suc n) = ground (arith, strncmp-eq-strcmp cs ds n)
