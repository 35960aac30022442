-- ===== src/Util/Copy.antt =====
-- What the kernel's `strcpy` leaves in memory.
use so_realtime.Prelude.{ℕ, zero, suc, ◌+◌, ◌<◌, ◌≡◌, ◌∙◌, List, [], ◌∷◌, length, get_or, arith}
use so_realtime.KernelLib.{Bytes, write_byte}
use so_realtime.Util.{strcpy}

-- What lies in front of the destination stays.
strcpy-before :
    (src : List ℕ) (dst : ℕ) (m : Bytes) (q : ℕ) → q < dst → (strcpy dst src m).1 q ≡ m q
unfolding strcpy
strcpy-before [] dst m q h = ground arith
strcpy-before (c ∷ src) dst m q h =
    strcpy-before src (dst + 1) (write_byte m dst c) q (omega arith) ∙ ground arith

-- `strcpy` puts the characters one after the other at the destination and a 0 behind them, and answers
-- the place of the 0.
strcpy_lem :
    (src : List ℕ) (dst : ℕ) (m : Bytes)
    → ((strcpy dst src m).0 ≡ dst + length src)
      × ((strcpy dst src m).1 (dst + length src) ≡ 0)
      × ((i : ℕ) → i < length src → (strcpy dst src m).1 (dst + i) ≡ get_or src i 0)
unfolding strcpy
strcpy_lem [] dst m = (omega arith, ground arith, λ i h. absurd (omega arith))
strcpy_lem (c ∷ src) dst m =
    let (end, zero_at, chars) = strcpy_lem src (dst + 1) (write_byte m dst c) in
    let place : dst + 1 + length src ≡ dst + suc (length src) = omega arith in
    (omega (arith, end), rw place at zero_at, each chars)
  where
    each :
        ((i : ℕ)
          → i < length src
          → (strcpy (dst + 1) src (write_byte m dst c)).1 (dst + 1 + i) ≡ get_or src i 0)
        → (i : ℕ) → i < suc (length src)
        → (strcpy (dst + 1) src (write_byte m dst c)).1 (dst + i) ≡ get_or (c ∷ src) i 0
    each chars zero h =
        strcpy-before src (dst + 1) (write_byte m dst c) (dst + 0) (omega arith) ∙ ground arith
    each chars (suc i) h =
        let place : dst + suc i ≡ dst + 1 + i = omega arith in rw place (chars i (omega arith))
