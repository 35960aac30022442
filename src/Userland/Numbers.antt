-- ===== src/Userland/Numbers.antt =====
-- Userland/CodeModule/lib/stdio.c: how numbers are printed and read. An `int` is a word of 32 bits.
-- A print function is given as the bytes that it passes to `write`.
pub mod Digits
pub mod Decimal
mod Tests
use so_realtime.Prelude.{
  ℕ, zero, suc, ◌+◌, ◌-◌, ◌*◌, ◌/◌, ◌%◌, ◌^◌, Bool, ◌||◌, not, List, [], ◌∷◌, ◌++◌, length, get_or,
  set, ltb, leb, ◌==◌, if◌then◌else◌,
}
use so_realtime.Userland.Ctype.{isspace}

unfoldable pub digit : ℕ → ℕ
digit r = if ltb r 10 then r + 48 else r + 65 - 10

-- The first loop of `num_to_base`, on fuel: the characters that go to the buffer, lowest digit first.
unfoldable pub low_digits : ℕ → ℕ → ℕ → List ℕ
unfolding digit
low_digits zero base value = []
low_digits (suc fuel) base value =
    let rest = low_digits fuel base (value / base) in
    digit (value % base) ∷ (if value / base == 0 then [] else rest)

-- The second loop of `num_to_base`, on fuel: `p1` and `p2` as indices into the buffer.
unfoldable pub swap_ends : ℕ → ℕ → ℕ → List ℕ → List ℕ
swap_ends zero p1 p2 buffer = buffer
swap_ends (suc fuel) p1 p2 buffer =
    let rest =
      swap_ends fuel (p1 + 1) (p2 - 1)
        (set (set buffer p1 (get_or buffer p2 0)) p2 (get_or buffer p1 0)) in
    if ltb p1 p2 then rest else buffer

-- The characters in the buffer; their number is the result. A value of 32 bits has at most 32 digits in
-- base 2 or more.
unfoldable pub num_to_base : ℕ → ℕ → List ℕ
num_to_base value base =
    let buffer = low_digits 32 base value in swap_ends (length buffer) 0 (length buffer - 1) buffer

-- `num < 0`
abbrev pub is_negative : ℕ → Bool
is_negative w = leb (2 ^ 31) w

-- `num *= -1`
abbrev pub negate32 : ℕ → ℕ
negate32 w = (2 ^ 32 - w) % 2 ^ 32

unfoldable pub print_dec : ℕ → List ℕ
unfolding num_to_base
print_dec num = if is_negative num then b'-' ∷ num_to_base (negate32 num) 10 else num_to_base num 10

unfoldable pub print_hex : ℕ → List ℕ
unfolding num_to_base
print_hex num = num_to_base num 16

unfoldable pub print_oct : ℕ → List ℕ
unfolding num_to_base
print_oct num = num_to_base num 8

unfoldable pub print_bin : ℕ → List ℕ
unfolding num_to_base
print_bin num = num_to_base num 2

-- The loop of `read_dec` from the rest of the text on: the number and the count of digits. `EOF` is the
-- byte 255; a byte above '9' stops the loop as a negative `char` would.
unfoldable pub read_digits : List ℕ → ℕ → ℕ → ℕ × ℕ
unfolding isspace
read_digits [] number digits = (number, digits)
read_digits (c ∷ cs) number digits =
    if isspace c || c == 0 || c == 255 || ltb c b'0' || ltb b'9' c || not (leb number (2 ^ 31 - 2))
    then (number, digits)
    else read_digits cs ((number * 10 + c + 2 ^ 32 - 48) % 2 ^ 32) (digits + 1)

-- The number stored through the pointer, and the characters read.
unfoldable pub read_dec : List ℕ → ℕ × ℕ
unfolding read_digits
read_dec [] = (0, 0)
read_dec (c ∷ cs) =
    if c == b'-'
    then (let r = read_digits cs 0 0 in (negate32 r.0, r.1 + 1))
    else read_digits (c ∷ cs) 0 0
