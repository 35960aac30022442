-- ===== src/Userland/Stdlib.antt =====
-- Userland/CodeModule/lib/stdlib.c: `atoi`. The other functions are system calls.
use so_realtime.Prelude.{ℕ, ◌+◌, ◌-◌, ◌*◌, ◌%◌, ◌^◌, ◌||◌, List, [], ◌∷◌, ltb, if◌then◌else◌}

-- The loop of `atoi`, with `i` as an `int`. A byte above '9' stops it as a negative `char` does.
unfoldable pub atoi_from : ℕ → List ℕ → ℕ
atoi_from i [] = i
atoi_from i (c ∷ cs) =
    let rest = atoi_from ((i * 10 + c + 2 ^ 32 - 48) % 2 ^ 32) cs in
    if ltb c b'0' || ltb b'9' c then i else rest

unfoldable pub atoi : List ℕ → ℕ
unfolding atoi_from
atoi str = atoi_from 0 str
