-- ===== src/Packer/Boot.antt =====
-- What the kernel's loader makes of the image that the packer builds.
use so_realtime.Prelude.{
  ℕ, zero, suc, ◌+◌, ◌-◌, ◌%◌, ◌^◌, ◌<◌, ◌≡◌, refl, List, [], ◌∷◌, ◌++◌, length, length-append, All,
  Option, none, some, get_or, ltb, leb, ◌&&◌, true, if◌then◌else◌, Outcome, fault, ◌>>=◌, arith,
  Ensures, Ensures-map,
}
use so_realtime.KernelLib.{Bytes}
use so_realtime.KernelLib.Laws.{IsBytes}
use so_realtime.Loader.{load_modules}
use so_realtime.Packer.{word_bytes, build_image}
use so_realtime.Packer.Image.{packed, build_image_lem}
use so_realtime.Packer.Loaded.{
  Shows, Shows-moved, Shows-append, Placed, Loaded, After, load_modules-packed,
}

-- The memory with the bytes put in at `base`.
abbrev pub stored : ℕ → List ℕ → Bytes → Bytes
stored base xs m q = if leb base q && ltb q (base + length xs) then get_or xs (q - base) 0 else m q

Shows-cells :
    (m : Bytes) (p : ℕ) (xs : List ℕ)
    → ((i : ℕ) → i < length xs → m (p + i) ≡ get_or xs i 0)
    → Shows m p xs
Shows-cells m p [] h = tt
Shows-cells m p (x ∷ xs) h =
    let e : p + 0 ≡ p = omega arith in
    (
      rw e at (h 0 (omega arith)),
      Shows-cells m (p + 1) xs
          (λ i k. let f : p + 1 + i ≡ p + suc i = omega arith in rw f (h (suc i) (omega arith))),
    )

stored-Shows : (base : ℕ) (xs : List ℕ) (m : Bytes) → Shows (stored base xs m) base xs
stored-Shows base xs m = Shows-cells (stored base xs m) base xs (λ i k.
    let inside : (leb base (base + i) && ltb (base + i) (base + length xs)) ≡ true = ground arith in
    let place : base + i - base ≡ i = omega arith in rw (inside, place) refl)

get_or-byte : (xs : List ℕ) (i : ℕ) → All (λ x. x < 256) xs → get_or xs i 0 < 256
get_or-byte [] i h = omega arith
get_or-byte (x ∷ xs) zero h = h.0
get_or-byte (x ∷ xs) (suc i) h = get_or-byte xs i h.1

stored-IsBytes :
    (base : ℕ) (xs : List ℕ) (m : Bytes)
    → IsBytes m
    → All (λ x. x < 256) xs
    → IsBytes (stored base xs m)
stored-IsBytes base xs m b h q = ground (arith, b q, get_or-byte xs (q - base) h)

bytes-append :
    (xs ys : List ℕ) → All (λ x. x < 256) xs → All (λ x. x < 256) ys → All (λ x. x < 256) (xs ++ ys)
bytes-append [] ys h k = k
bytes-append (x ∷ xs) ys h k = (h.0, bytes-append xs ys h.1 k)

word_bytes-bytes : (n : ℕ) → n < 2 ^ 32 → All (λ x. x < 256) (word_bytes n)
word_bytes-bytes n h = (omega arith, (omega arith, (omega arith, (omega arith, tt))))

packed-bytes :
    (files : List (List ℕ))
    → All (λ f. All (λ x. x < 256) f) files
    → All (λ x. x < 256) (packed files)
packed-bytes [] h = tt
packed-bytes (f ∷ fs) h =
    bytes-append (word_bytes (length f % 2 ^ 32)) (f ++ packed fs)
      (word_bytes-bytes (length f % 2 ^ 32) (omega arith))
      (bytes-append f (packed fs) h.0 (packed-bytes fs h.1))

-- The number of bytes of an image: the kernel, the number of the modules, and each behind its size.
abbrev pub modules_size : List (List ℕ) → ℕ
modules_size [] = 0
modules_size (f ∷ fs) = 4 + (length f + modules_size fs)

length-packed : (files : List (List ℕ)) → length (packed files) ≡ modules_size files
length-packed [] = refl
length-packed (f ∷ fs) = omega (arith, length-append f (packed fs), length-packed fs)

-- The loader, run on the image behind the kernel in it, once the image was put into memory.
abbrev pub load_image : ℕ → ℕ → List ℕ → Bytes → Option (List ℕ) → Outcome (Bytes × ℕ)
load_image base kernel_size targets m none = fault
load_image base kernel_size targets m (some image) =
    load_modules (base + kernel_size) targets (stored base image m)

-- `build_image` writes an image of a kernel and modules on a new target. Once that stands in memory from
-- `base` on, `load_modules`, called with the address behind the kernel, returns: the bytes of each module
-- are at its target then, and the kernel is where it was. There are fewer than 2^32 modules of fewer than
-- 2^32 bytes, and the targets lie behind the image, one after the other with room for the modules.
pub load_modules-build_image :
    (kernel : List ℕ) (files : List (List ℕ)) (targets : List ℕ) (base : ℕ) (m : Bytes)
    → IsBytes m
    → All (λ x. x < 256) kernel
    → All (λ f. All (λ x. x < 256) f) files
    → length files < 2 ^ 32
    → Placed (base + length kernel + 4 + modules_size files) targets files
    → Ensures
        (λ (r : Bytes × ℕ). Shows r.0 base kernel × Loaded r.0 targets files)
        (build_image kernel files (some []) >>= load_image base (length kernel) targets m)
load_modules-build_image kernel files targets base m b kb fb few placed =
    let rest = word_bytes (length files % 2 ^ 32) ++ packed files in
    let image = kernel ++ rest in
    let memory = stored base image m in
    let (first, behind) = Shows-append memory base kernel rest (stored-Shows base image m) in
    let start = base + length kernel in
    let bytes = bytes-append kernel rest kb (
      bytes-append (word_bytes (length files % 2 ^ 32)) (packed files)
        (word_bytes-bytes (length files % 2 ^ 32) (omega arith)) (packed-bytes files fb)) in
    rw (build_image_lem kernel files) (
      Ensures-map (After (start + 4 + length (packed files)) memory targets files)
        (λ (r : Bytes × ℕ). Shows r.0 base kernel × Loaded r.0 targets files)
        (load_modules start targets memory)
        (λ r a. (
          Shows-moved memory r.0 base base kernel (λ i k. a.below (base + i) (omega arith)) first,
          a.loaded,
        ))
        (load_modules-packed files targets start memory (stored-IsBytes base image m b bytes) few
          behind (rw (length-packed files) placed)))
