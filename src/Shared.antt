-- ===== src/Shared.antt =====
-- Kernel/system/sharedMemory/shared.c: the table of named blocks of memory that processes share.
pub mod Access
pub mod Names
mod Tests
use so_realtime.Prelude.{
  ℕ, zero, suc, ◌+◌, ◌-◌, ◌%◌, ◌^◌, Bool, true, false, ◌||◌, ◌&&◌, not, Option, none, some, List,
  set, get_or, replicate, leb, ◌==◌, if◌then◌else◌, minus_one, add64, sub64, Outcome, done, fault,
  ◌>>=◌,
}
use so_realtime.Util.{strlen, strcmp}
use so_realtime.Memory.Kmem.{kmalloc, kfree}
use so_realtime.Memory.Memlib.{Memory, get_memblock, free_memblock}

abbrev pub max_blocks : ℕ
max_blocks = 10

-- `sizeof(mem_shared_t)`
abbrev pub sizeof_shared : ℕ
sizeof_shared = 24

-- `mem_shared_t`, with the address of the record itself and the text that its name points to.
pub record Shared : Type 0 where
  pub address : ℕ
  pub start : ℕ
  pub name : ℕ
  pub text : List ℕ
  pub sim_access : ℕ

pub record Table : Type 0 where
  pub current : ℕ
  pub mems : List (Option Shared)
  pub memory : Memory

unfoldable pub init_shared : Memory → Table
init_shared memory = record { current = 1; mems = replicate max_blocks none; memory = memory }

-- The loop of `shmget`: `j`, the rounds left, and `pos`. It answers `equals` and `pos`.
unfoldable pub find_from : ℕ → ℕ → List (Option Shared) → List ℕ → ℕ → Bool × ℕ
unfolding strcmp
find_from j zero mems text pos = (false, pos)
find_from j (suc n) mems text pos =
    let unset = find_from (j + 1) n mems text j in
    let passed = find_from (j + 1) n mems text pos in
    elim (get_or mems j none) [
      | none ↦ unset
      | some s ↦ if strcmp s.text text == 0 then (true, j) else passed
    ]

-- The loop of `freeSpace`: `j`, and the rounds left.
unfoldable pub free_from : ℕ → ℕ → List (Option Shared) → Bool
free_from j zero mems = false
free_from j (suc n) mems =
    let rest = free_from (j + 1) n mems in elim (get_or mems j none) [ none ↦ true | some s ↦ rest ]

abbrev pub free_space : Table → Bool
free_space t = free_from 0 t.current t.mems

-- A new entry at `pos`, with its record, its name and its block; `none` stands for a record that is not
-- to be had. A name for which there is no memory is written through a null pointer.
unfoldable pub new_entry : ℕ → List ℕ → ℕ → Table → Outcome (Option Table)
unfolding strlen
new_entry pos text size t = kmalloc sizeof_shared t.memory.heap >>= λ aux.
    if aux.0 == 0
    then done none
    else (kmalloc (strlen text + 1) aux.1 >>= λ named.
        if named.0 == 0
        then fault
        else (get_memblock size (record { pool = t.memory.pool; heap = named.1 }) >>= λ block.
            done (
              some (record {
                current = t.current;
                mems = set t.mems pos (
                    some (record {
                      address = aux.0;
                      start = block.0;
                      name = named.0;
                      text = text;
                      sim_access = 0;
                    }));
                memory = block.1;
              }))))

-- `current++` at the end of `shmget`
abbrev pub grown : Bool → Table → Table
grown equals t =
    if not equals && not (free_space t) then record t { current = add64 t.current 1 } else t

unfoldable pub place_entry : Bool → ℕ → List ℕ → ℕ → Bool → Table → Outcome (ℕ × Table)
unfolding new_entry free_from
place_entry equals pos text size overwrite t =
    if pos == minus_one
    then done (minus_one, t)
    else if overwrite || not equals
    then (new_entry pos text size t >>= λ o. elim o [
      | none ↦ done (minus_one, t)
      | some t' ↦ done (add64 pos 1, grown equals t')
    ])
    else done (add64 pos 1, grown equals t)

-- `none` as the name stands for `NULL`.
unfoldable pub shmget : Option (List ℕ) → ℕ → Bool → Table → Outcome (ℕ × Table)
unfolding find_from place_entry
shmget name size overwrite t = if t.current == max_blocks then done (minus_one, t) else elim name [
  | none ↦ done (minus_one, t)
  | some text ↦
      let found = find_from 0 t.current t.mems text minus_one in
      place_entry found.0 found.1 text size overwrite t
]

unfoldable pub shmat : ℕ → Table → ℕ × Table
shmat id t =
    if id == 0
    then (0, t)
    else if leb t.current (id - 1)
    then (0, t)
    else elim (get_or t.mems (id - 1) none) [
      | none ↦ (0, t)
      | some s ↦ (
        s.start,
        record t {
          mems = set t.mems (id - 1) (some (record s { sim_access = add64 s.sim_access 1 }));
        },
      )
    ]

-- The last access is gone: the block, the name and the record go back.
unfoldable pub drop_entry : ℕ → Shared → Table → Outcome (ℕ × Table)
drop_entry j s t = free_memblock s.start t.memory >>= λ r. done (
  0,
  record {
    current = t.current;
    mems = set t.mems j none;
    memory = record { pool = r.1.pool; heap = kfree s.address (kfree s.name r.1.heap) };
  },
)

-- The loop of `shmdetach`: `j`, and the rounds left.
unfoldable pub detach_from : ℕ → ℕ → ℕ → Table → Outcome (ℕ × Table)
unfolding drop_entry
detach_from j zero address t = done (minus_one, t)
detach_from j (suc n) address t = elim (get_or t.mems j none) [
  | none ↦ detach_from (j + 1) n address t
  | some s ↦
      if s.start == address
      then (if sub64 s.sim_access 1 == 0
          then drop_entry j s t
          else detach_from (j + 1) n address (record t {
            mems = set t.mems j (some (record s { sim_access = sub64 s.sim_access 1 }));
          }))
      else detach_from (j + 1) n address t
]

unfoldable pub shmdetach : ℕ → Table → Outcome (ℕ × Table)
unfolding detach_from
shmdetach address t = detach_from 0 t.current address t
