-- ===== src/Memory/Chunks.antt =====
-- The list of chunks that kmem.c and pmem.c keep in the memory that they hand out, and the
-- statements that `kmalloc` and `pmalloc`, `kfree` and `pfree` have in common, word for word.
-- Each chunk stands behind its two headers, a `mem_chunk_t` (24 bytes) and a `mem_chunk_list_t`
-- (16 bytes). The list is the chain of `next` pointers; the headers' addresses follow from the
-- chunks' starts.
pub mod Spacing
pub mod Blocks
pub mod Heap
pub mod Limits
use so_realtime.Prelude.{
  ℕ, ◌+◌, ◌-◌, ◌*◌, ◌%◌, ◌^◌, Bool, true, false, ◌||◌, Option, none, some, List, [], ◌∷◌, ◌++◌, ltb,
  leb, add64, sub64, if◌then◌else◌, Outcome, done, fault,
}

-- `mem_chunk_t`
pub record Chunk : Type 0 where
  pub start : ℕ
  pub size : ℕ
  pub used : Bool

-- `sizeof(mem_chunk_t) + sizeof(mem_chunk_list_t)`
abbrev pub header_size : ℕ
header_size = 40

-- `size * amount`, where `amount` is an `uint32_t`
abbrev pub product64 : ℕ → ℕ → ℕ
product64 amount size = size * (amount % 2 ^ 32) % 2 ^ 64

abbrev pub fresh_chunk : ℕ → ℕ → Chunk
fresh_chunk at n = record { start = at; size = n; used = true }

-- The chunks that the search has passed stay before the rest of the list.
abbrev pub behind : Chunk → Option (ℕ × List Chunk) → Option (ℕ × List Chunk)
behind c none = none
behind c (some (a, cs)) = some (a, c ∷ cs)

-- The search loop of an allocation, and what is done where it stops at a chunk: the first unused
-- chunk of `n` bytes or more is marked as used and cut to `n`. `none` stands for `curr == NULL`.
unfoldable pub take_first_fit : ℕ → List Chunk → Option (ℕ × List Chunk)
take_first_fit n [] = none
take_first_fit n (c ∷ cs) =
    if c.used || ltb c.size n
    then behind c (take_first_fit n cs)
    else some (c.start, record c { size = n; used = true } ∷ cs)

-- `prev` where the search ended at `NULL`
unfoldable pub last_chunk : List Chunk → Option Chunk
last_chunk [] = none
last_chunk (c ∷ []) = some c
last_chunk (c ∷ d ∷ cs) = last_chunk (d ∷ cs)

-- The chunk that is laid out behind `prev`.
unfoldable pub chunk_behind : Chunk → ℕ → Chunk
chunk_behind prev n = fresh_chunk (add64 (add64 prev.start prev.size) header_size) n

-- An allocation in a heap that ends at `limit`: the address, 0 for `NULL`, and the new list.
-- On an empty list the code reads through the null pointer `prev`.
unfoldable pub allocate : ℕ → ℕ → List Chunk → Outcome (ℕ × List Chunk)
allocate limit n cs = elim (take_first_fit n cs) [
  | some r ↦ done r
  | none ↦ elim (last_chunk cs) [
    | none ↦ fault
    | some prev ↦
        if ltb limit (add64 (add64 prev.start prev.size) n)
        then done (0, cs)
        else done ((chunk_behind prev n).start, cs ++ (chunk_behind prev n ∷ []))
  ]
]

-- `abs(mem - start)`, compared as an unsigned number
unfoldable pub distance : ℕ → ℕ → ℕ
distance mem start =
    if ltb (sub64 mem start) (2 ^ 63) then sub64 mem start else 2 ^ 64 - sub64 mem start

-- The test that ends the search loop of a release.
unfoldable pub near : ℕ → Chunk → Bool
unfolding distance
near mem c = leb (distance mem c.start) c.size

abbrev pub absorb : Chunk → Chunk → Chunk
absorb c d = record c { size = add64 c.size d.size }

-- `curr` is the first chunk, and it is not appended to the one before it.
unfoldable pub release_here : Chunk → List Chunk → List Chunk
release_here c [] = record c { used = false } ∷ []
release_here c (d ∷ ds) =
    if d.used then record c { used = false } ∷ d ∷ ds else absorb (record c { used = false }) d ∷ ds

-- `prev` is unused: `curr`, the second argument, and an unused chunk behind it go to `prev`.
unfoldable pub release_into : Chunk → Chunk → List Chunk → List Chunk
release_into p c [] = absorb p c ∷ []
release_into p c (d ∷ ds) = if d.used then absorb p c ∷ d ∷ ds else absorb (absorb p c) d ∷ ds

-- The search of a release from its second round on, with `prev` before the rest of the list.
unfoldable pub release_after : ℕ → Chunk → List Chunk → List Chunk
release_after mem p [] = p ∷ []
release_after mem p (c ∷ cs) =
    if near mem c
    then (if p.used then p ∷ release_here c cs else release_into p c cs)
    else p ∷ release_after mem c cs

unfoldable pub release : ℕ → List Chunk → List Chunk
release mem [] = []
release mem (c ∷ cs) = if near mem c then release_here c cs else release_after mem c cs
