-- ===== src/Packer/Loaded.antt =====
-- What the kernel's loader makes of modules that stand in memory the way the packer writes them.
use so_realtime.Prelude.{
  ℕ, suc, ◌+◌, ◌-◌, ◌%◌, ◌^◌, ◌≤◌, ◌<◌, ◌≡◌, refl, inr, ◌∙◌, List, [], ◌∷◌, ◌++◌, length,
  length-append, ltb, leb, ◌&&◌, true, false, arith, Ensures, Ensures-map, done,
}
use so_realtime.KernelLib.{Bytes, read_word, memcpy}
use so_realtime.KernelLib.Laws.{IsBytes, memcpy_lem}
use so_realtime.Loader.{read_uint32, load_module, load_from, load_modules}
use so_realtime.Packer.{word_bytes}
use so_realtime.Packer.Image.{packed}

-- The memory holds the bytes from the address on.
abbrev pub Shows : Bytes → ℕ → List ℕ → Type 0
Shows m p [] = Unit
Shows m p (x ∷ xs) = (m p ≡ x) × Shows m (p + 1) xs

pub Shows-moved :
    (m m' : Bytes) (p q : ℕ) (xs : List ℕ)
    → ((i : ℕ) → i < length xs → m' (q + i) ≡ m (p + i))
    → Shows m p xs
    → Shows m' q xs
Shows-moved m m' p q [] same h = tt
Shows-moved m m' p q (x ∷ xs) same (h, hs) =
    let e : q + 0 ≡ q = omega arith in
    let e' : p + 0 ≡ p = omega arith in
    (
      rw (e, e') at (same 0 (omega arith)) ∙ h,
      Shows-moved m m' (p + 1) (q + 1) xs
          (λ i k.
            let f : q + 1 + i ≡ q + suc i = omega arith in
            let f' : p + 1 + i ≡ p + suc i = omega arith in rw (f, f') (same (suc i) (omega arith)))
          hs,
    )

pub Shows-append :
    (m : Bytes) (p : ℕ) (xs ys : List ℕ)
    → Shows m p (xs ++ ys)
    → Shows m p xs × Shows m (p + length xs) ys
Shows-append m p [] ys h = let e : p + 0 ≡ p = omega arith in (tt, rw e h)
Shows-append m p (x ∷ xs) ys (h, hs) =
    let (a, b) = Shows-append m (p + 1) xs ys hs in
    let e : p + 1 + length xs ≡ p + suc (length xs) = omega arith in ((h, a), rw e at b)

read_word-Shows : (m : Bytes) (p n : ℕ) → n < 2 ^ 32 → Shows m p (word_bytes n) → read_word m p ≡ n
unfolding read_word
read_word-Shows m p n h (a, (b, (c, (d, e)))) =
    let two : p + 1 + 1 ≡ p + 2 = omega arith in
    let three : p + 1 + 1 + 1 ≡ p + 3 = omega arith in omega (arith, rw two at c, rw three at d)

-- A copy to a place behind its source.
module _ (m : Bytes) (t s n : ℕ) (b : IsBytes m) (behind : s + n ≤ t) where
  memcpy-inside : (i : ℕ) → i < n → memcpy m t s n (t + i) ≡ m (s + i)
  memcpy-inside i h =
      let e : t + i - t ≡ i = omega arith in
      let test : (leb t (t + i) && ltb (t + i) (t + n)) ≡ true = ground arith in
      rw (test, e) at (memcpy_lem m t s n (t + i) b (inr behind))

  memcpy-below : (q : ℕ) → q < t → memcpy m t s n q ≡ m q
  memcpy-below q h =
      let test : (leb t q && ltb q (t + n)) ≡ false = ground arith in
      rw test at (memcpy_lem m t s n q b (inr behind))

  memcpy-IsBytes : IsBytes (memcpy m t s n)
  memcpy-IsBytes q = rw (memcpy_lem m t s n q b (inr behind)) (ground (arith, b q, b (s + (q - t))))

-- The modules lie one behind the other from `lo` on, at their targets, and the size of each is a word.
abbrev pub Placed : ℕ → List ℕ → List (List ℕ) → Type 0
Placed lo targets [] = Unit
Placed lo [] (f ∷ fs) = ⊥
Placed lo (t ∷ targets) (f ∷ fs) = (lo ≤ t) × (length f < 2 ^ 32) × Placed (t + length f) targets fs

-- Each module's bytes stand at its target.
abbrev pub Loaded : Bytes → List ℕ → List (List ℕ) → Type 0
Loaded m targets [] = Unit
Loaded m [] (f ∷ fs) = ⊥
Loaded m (t ∷ targets) (f ∷ fs) = Shows m t f × Loaded m targets fs

-- The modules stand at their targets, and nothing below them has changed.
pub record After (lo : ℕ) (m : Bytes) (targets : List ℕ) (fs : List (List ℕ)) (r : Bytes × ℕ)
    : Type 0 where
  pub loaded : Loaded r.0 targets fs
  pub below : (q : ℕ) → q < lo → r.0 q ≡ m q

load_module_lem :
    (m : Bytes) (current t n : ℕ)
    → read_word m current ≡ n
    → load_module current t m ≡ (memcpy m t (current + 4) n, current + 4 + n)
unfolding load_module read_uint32
load_module_lem m current t n e = rw e refl

load_from_step :
    (n current t : ℕ) (targets : List ℕ) (m : Bytes)
    → load_from (suc n) (t ∷ targets) current m
      ≡ load_from n targets (load_module current t m).1 (load_module current t m).0
unfolding load_from
load_from_step n current t targets m = refl

load_from_none :
    (current : ℕ) (targets : List ℕ) (m : Bytes) → load_from 0 targets current m ≡ done (m, current)
unfolding load_from
load_from_none current targets m = refl

After-cons :
    (lo current t : ℕ) (m : Bytes) (f : List ℕ) (targets : List ℕ) (fs : List (List ℕ))
    (r : Bytes × ℕ)
    → IsBytes m
    → lo ≤ t
    → current + length f ≤ lo
    → Shows m current f
    → After (t + length f) (memcpy m t current (length f)) targets fs r
    → After lo m (t ∷ targets) (f ∷ fs) r
After-cons lo current t m f targets fs r b h fits shown after = record {
  loaded = (
    Shows-moved m r.0 current t f
        (λ i k.
          after.below (t + i) (omega arith)
          ∙ memcpy-inside m t current (length f) b (omega arith) i k)
        shown,
    after.loaded,
  );
  below = λ q k.
      after.below q (omega arith)
      ∙ memcpy-below m t current (length f) b (omega arith) q (omega arith);
}

load_from_lem :
    (fs : List (List ℕ)) (targets : List ℕ) (current lo : ℕ) (m : Bytes)
    → IsBytes m
    → Shows m current (packed fs)
    → current + length (packed fs) ≤ lo
    → Placed lo targets fs
    → Ensures (After lo m targets fs) (load_from (length fs) targets current m)
load_from_lem [] targets current lo m b shown fits placed =
    rw (load_from_none current targets m) (record { loaded = tt; below = λ q k. refl })
load_from_lem (f ∷ fs) [] current lo m b shown fits placed = absurd placed
load_from_lem (f ∷ fs) (t ∷ targets) current lo m b shown fits (h, small, placed) =
    let (head, tail) =
      Shows-append m current (word_bytes (length f % 2 ^ 32)) (f ++ packed fs) shown in
    let (body, rest) = Shows-append m (current + 4) f (packed fs) tail in
    let total : length (packed (f ∷ fs)) ≡ 4 + (length f + length (packed fs)) =
      omega (arith, length-append f (packed fs)) in
    let size : length f % 2 ^ 32 ≡ length f = omega arith in
    let word : read_word m current ≡ length f =
      rw size at (read_word-Shows m current (length f % 2 ^ 32) (omega arith) head) in
    rw (load_from_step (length fs) current t targets m, load_module_lem m current t (length f) word)
      (Ensures-map (After (t + length f) (memcpy m t (current + 4) (length f)) targets fs)
        (After lo m (t ∷ targets) (f ∷ fs))
        (load_from (length fs) targets (current + 4 + length f)
          (memcpy m t (current + 4) (length f)))
        (λ r. After-cons lo (current + 4) t m f targets fs r b h (omega arith) body)
        (load_from_lem fs targets (current + 4 + length f) (t + length f)
          (memcpy m t (current + 4) (length f))
          (memcpy-IsBytes m t (current + 4) (length f) b (omega arith))
          (Shows-moved m (memcpy m t (current + 4) (length f)) (current + 4 + length f)
            (current + 4 + length f) (packed fs)
            (λ i k.
              memcpy-below m t (current + 4) (length f) b (omega arith) (current + 4 + length f + i)
                (omega arith))
            rest)
          (omega arith) placed))

-- Where memory shows, from `start` on, the number of the modules and what stands in an image for them,
-- `load_modules` leaves the bytes of each module at its target, and all below the targets as it was.
pub load_modules-packed :
    (files : List (List ℕ)) (targets : List ℕ) (start : ℕ) (m : Bytes)
    → IsBytes m
    → length files < 2 ^ 32
    → Shows m start (word_bytes (length files % 2 ^ 32) ++ packed files)
    → Placed (start + 4 + length (packed files)) targets files
    → Ensures
        (After (start + 4 + length (packed files)) m targets files)
        (load_modules start targets m)
unfolding load_modules read_uint32
load_modules-packed files targets start m b few shown placed =
    let (head, tail) =
      Shows-append m start (word_bytes (length files % 2 ^ 32)) (packed files) shown in
    let count : length files % 2 ^ 32 ≡ length files = omega arith in
    let word : read_word m start ≡ length files =
      rw count at (read_word-Shows m start (length files % 2 ^ 32) (omega arith) head) in
    rw word (
      load_from_lem files targets (start + 4) (start + 4 + length (packed files)) m b tail
        (omega arith) placed)
