-- ===== src/Shared/Access.antt =====
-- Attaching to an entry and detaching from it.
use so_realtime.Prelude.{ℕ, ◌<◌, ◌≡◌, ◌≢◌, Option, none, some, length, set, get_or}
use so_realtime.Shared.{Shared, Table}

-- The entry does not begin at the address.
abbrev pub Misses : ℕ → Option Shared → Type 0
Misses a none = Unit
Misses a (some s) = s.start ≢ a

-- What `shmdetach` does at the entry `k`.
abbrev pub with_access : ℕ → Shared → ℕ → Table → Table
with_access k s n t = record t { mems = set t.mems k (some (record s { sim_access = n })) }

-- The entry at `k` is in the table, and it alone begins at the address.
pub record Entry (k a : ℕ) (s : Shared) (t : Table) : Type 0 where
  pub there : k < t.current
  pub slot : k < length t.mems
  pub here : get_or t.mems k none ≡ some s
  pub begins : s.start ≡ a
  pub alone : (i : ℕ) → i ≢ k → Misses a (get_or t.mems i none)
