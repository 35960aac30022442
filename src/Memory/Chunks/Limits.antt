-- ===== src/Memory/Chunks/Limits.antt =====
-- How the bound of an allocation wraps around.
use so_realtime.Prelude.{ℕ, ◌+◌, ◌^◌, ◌≤◌, ◌<◌, ◌≡◌, List, arith, Ensures, none, some}
use so_realtime.Memory.Chunks.{
  Chunk, header_size, take_first_fit, last_chunk, chunk_behind, allocate,
}

module _ (limit n : ℕ) (cs : List Chunk) (p : Chunk) (no_fit : take_first_fit n cs ≡ none)
    (last : last_chunk cs ≡ some p) where
  -- The sum of the bound wraps: a request that is larger than the address space behind the last
  -- chunk passes it.
  pub allocate_wrap :
      limit < 2 ^ 63
      → n < 2 ^ 64
      → 2 ^ 64 ≤ p.start + p.size + n
      → p.start + p.size + n ≤ 2 ^ 64 + limit
      → p.start + p.size + header_size < 2 ^ 64
      → Ensures (λ (r : ℕ × List Chunk). r.0 ≡ p.start + p.size + header_size) (allocate limit n cs)
  unfolding allocate chunk_behind
  allocate_wrap hl hn h k t = rw (allocate, no_fit, last) (ground arith)
