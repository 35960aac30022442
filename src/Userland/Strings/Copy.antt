-- ===== src/Userland/Strings/Copy.antt =====
-- What a copy leaves in the buffer.
use so_realtime.Prelude.{
  ℕ, zero, suc, ◌+◌, ◌<◌, ◌≡◌, refl, ◌∙◌, List, [], ◌∷◌, ◌++◌, length, length-snoc, set, set-middle,
  take, drop, append_assoc, arith,
}
use native.Mathlib.Numerals.{add-one}
use so_realtime.Userland.Strings.{copy_from, strcpy, ncopy_from, strncpy}

copy_from_lem :
    (from pre to : List ℕ)
    → length from < length to
    → copy_from from (length pre) (pre ++ to) ≡ pre ++ (from ++ (0 ∷ drop (suc (length from)) to))
unfolding copy_from
copy_from_lem [] pre [] h = absurd (omega arith)
copy_from_lem [] pre (x ∷ to) h = set-middle pre to x 0
copy_from_lem (c ∷ cs) pre [] h = absurd (omega arith)
copy_from_lem (c ∷ cs) pre (x ∷ to) h =
    rw (set-middle pre to x c, add-one)
      (rw
        (
          length-snoc pre c,
          append_assoc pre (c ∷ []) to,
          append_assoc pre (c ∷ []) (cs ++ (0 ∷ drop (suc (length cs)) to)),
        )
        at (copy_from_lem cs (pre ++ (c ∷ [])) to (omega arith)))

-- In a buffer that has room for the string and its terminator, `strcpy` leaves the string, the terminator
-- and the rest of the buffer as it was.
pub strcpy_lem :
    (from to : List ℕ)
    → length from < length to
    → strcpy from to ≡ from ++ (0 ∷ drop (suc (length from)) to)
unfolding strcpy
strcpy_lem from to h = copy_from_lem from [] to h

-- `strncpy` copies as `strcpy` does from a string that is cut after `n` characters.
ncopy_from-take :
    (from : List ℕ) (i : ℕ) (buffer : List ℕ) (n : ℕ)
    → ncopy_from from i buffer n ≡ copy_from (take n from) i buffer
unfolding copy_from ncopy_from
ncopy_from-take [] i buffer zero = refl
ncopy_from-take [] i buffer (suc n) = refl
ncopy_from-take (c ∷ cs) i buffer zero = refl
ncopy_from-take (c ∷ cs) i buffer (suc n) = ncopy_from-take cs (i + 1) (set buffer i c) n

-- In a buffer that has room for the first `n` characters of the string and a terminator, `strncpy` leaves
-- those, the terminator and the rest of the buffer as it was.
pub strncpy_lem :
    (from to : List ℕ) (n : ℕ)
    → length (take n from) < length to
    → strncpy from to n ≡ take n from ++ (0 ∷ drop (suc (length (take n from))) to)
unfolding strncpy
strncpy_lem from to n h = ncopy_from-take from 0 to n ∙ copy_from_lem (take n from) [] to h
