-- ===== src/Util.antt =====
-- Kernel/util/util.c: strings in the kernel. A string is the list of its bytes before the terminator.
mod Copy
use so_realtime.Prelude.{ℕ, ◌+◌, ◌-◌, ◌%◌, ◌^◌, List, [], ◌∷◌, ltb, ◌==◌, if◌then◌else◌}
use so_realtime.KernelLib.{Bytes, write_byte}

-- A `char` as an `int`
abbrev pub char_value : ℕ → ℕ
char_value c = if ltb c 128 then c else c + 2 ^ 32 - 256

-- `a - b` of two values of type `char`, as an `int`
abbrev pub char_difference : ℕ → ℕ → ℕ
char_difference a b = (char_value a + 2 ^ 32 - char_value b) % 2 ^ 32

unfoldable pub strlen : List ℕ → ℕ
strlen [] = 0
strlen (c ∷ cs) = strlen cs + 1

unfoldable pub strcmp : List ℕ → List ℕ → ℕ
strcmp [] [] = 0
strcmp [] (d ∷ ds) = char_difference 0 d
strcmp (c ∷ cs) [] = char_difference c 0
strcmp (c ∷ cs) (d ∷ ds) = let rest = strcmp cs ds in if c == d then rest else char_difference c d

-- The loop of `strcpy` over the source, and its terminator: where `dst` points then, and the memory.
unfoldable pub strcpy : ℕ → List ℕ → Bytes → ℕ × Bytes
strcpy dst [] m = (dst, write_byte m dst 0)
strcpy dst (c ∷ src) m = strcpy (dst + 1) src (write_byte m dst c)
