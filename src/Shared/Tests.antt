-- ===== src/Shared/Tests.antt =====
-- Shared blocks at concrete inputs.
use so_realtime.Prelude.{
  ◌<◌, false, ℕ, zero, suc, ◌+◌, ◌≡◌, refl, none, some, [], ◌∷◌, get_or, replicate, arith, done,
}
use so_realtime.Memory.Buddy.{Pool}
use so_realtime.Util.{strcmp}
use so_realtime.Shared.Names.{Unnamed, shmget_existing}
use so_realtime.Shared.{shmget, Shared, Table}

abbrev clock : Shared
clock = record { address = 100; start = 7340032; name = 200; text = b'c' ∷ []; sim_access = 1 }

abbrev board : Shared
board = record { address = 300; start = 8388608; name = 400; text = b'b' ∷ []; sim_access = 2 }

-- Two blocks, of which the first has one access and the second has two.
abbrev table : Table
table = record {
  current = 3;
  mems = some clock ∷ some board ∷ replicate 8 none;
  memory = record { pool = Pool.unset; heap = [] };
}

clock_first : (i : ℕ) → i < 1 → Unnamed (b'b' ∷ []) (get_or table.mems i none)
unfolding strcmp
clock_first zero h = λ e. absurd (omega arith)
clock_first (suc i) h = absurd (omega arith)

shmget_existing_example : shmget (some (b'b' ∷ [])) 50 false table ≡ done (1 + 1, table)
unfolding strcmp
shmget_existing_example =
    shmget_existing 1 50 (b'b' ∷ []) board table (omega arith) (omega arith) refl refl clock_first
