-- ===== src/Memory/Chunks/Spacing.antt =====
-- Chunks stand in the order of their addresses, with room for a header between two of them.
use so_realtime.Prelude.{
  ℕ, ◌+◌, ◌^◌, ◌≤◌, ◌<◌, ◌≡◌, refl, some, inl, inr, Option-cases, List, [], ◌∷◌, ◌++◌, arith,
  OnSome, Ensures,
}
use so_realtime.Memory.Chunks.{
  Chunk, header_size, take_first_fit, last_chunk, chunk_behind, allocate, release_here,
  release_into, release_after, release,
}

-- The first chunk stands at `lo` or behind it, and all of them end at `top` or before it.
abbrev pub Spaced : ℕ → ℕ → List Chunk → Type 0
Spaced top lo [] = Unit
Spaced top lo (c ∷ cs) =
    (lo ≤ c.start) × (c.start + c.size ≤ top) × Spaced top (c.start + c.size + header_size) cs

pub Spaced-weaken :
    (top lo lo' : ℕ) (cs : List Chunk) → lo' ≤ lo → Spaced top lo cs → Spaced top lo' cs
Spaced-weaken top lo lo' [] h s = tt
Spaced-weaken top lo lo' (c ∷ cs) h (a, b, s) = (omega arith, b, s)

pub take_first_fit-Spaced :
    (top lo n : ℕ) (cs : List Chunk)
    → Spaced top lo cs
    → OnSome (λ (r : ℕ × List Chunk). Spaced top lo r.1) (take_first_fit n cs)
unfolding take_first_fit
take_first_fit-Spaced top lo n [] s = tt
take_first_fit-Spaced top lo n (c ∷ cs) (x, y, s) = ground (
  arith,
  take_first_fit-Spaced top (c.start + c.size + header_size) n cs s,
  Spaced-weaken top (c.start + c.size + header_size) (c.start + n + header_size) cs,
)

pub release_here-Spaced :
    (top lo : ℕ) (c : Chunk) (cs : List Chunk)
    → top < 2 ^ 63
    → Spaced top lo (c ∷ cs)
    → Spaced top lo (release_here c cs)
unfolding release_here
release_here-Spaced top lo c [] h s = s
release_here-Spaced top lo c (d ∷ ds) h s = ground (
  arith,
  Spaced-weaken top (d.start + d.size + header_size) (c.start + (c.size + d.size) + header_size) ds,
)

pub release_into-Spaced :
    (top lo : ℕ) (p c : Chunk) (cs : List Chunk)
    → top < 2 ^ 63
    → Spaced top lo (p ∷ c ∷ cs)
    → Spaced top lo (release_into p c cs)
unfolding release_into
release_into-Spaced top lo p c [] h s = ground arith
release_into-Spaced top lo p c (d ∷ ds) h s = ground (
  arith,
  Spaced-weaken top (d.start + d.size + header_size)
      (p.start + (p.size + c.size + d.size) + header_size) ds,
)

release_after-Spaced :
    (top lo mem : ℕ) (p : Chunk) (cs : List Chunk)
    → top < 2 ^ 63
    → Spaced top lo (p ∷ cs)
    → Spaced top lo (release_after mem p cs)
unfolding release_after
release_after-Spaced top lo mem p [] h s = s
release_after-Spaced top lo mem p (c ∷ cs) h (x, y, s) = ground (
  arith,
  release_here-Spaced top (p.start + p.size + header_size) c cs h s,
  release_into-Spaced top lo p c cs h (x, y, s),
  release_after-Spaced top (p.start + p.size + header_size) mem c cs h s,
)

-- A release keeps the spacing, whatever address it is given.
pub release-Spaced :
    (top lo mem : ℕ) (cs : List Chunk)
    → top < 2 ^ 63
    → Spaced top lo cs
    → Spaced top lo (release mem cs)
unfolding release
release-Spaced top lo mem [] h s = tt
release-Spaced top lo mem (c ∷ cs) h s =
    ground (arith, release_here-Spaced top lo c cs h s, release_after-Spaced top lo mem c cs h s)

pub last_chunk-Spaced :
    (top lo : ℕ) (cs : List Chunk)
    → Spaced top lo cs
    → OnSome (λ (p : Chunk). (lo ≤ p.start) × (p.start + p.size ≤ top)) (last_chunk cs)
unfolding last_chunk
last_chunk-Spaced top lo [] s = tt
last_chunk-Spaced top lo (c ∷ []) s = (s.0, s.1)
last_chunk-Spaced top lo (c ∷ d ∷ cs) s =
    ground (arith, last_chunk-Spaced top (c.start + c.size + header_size) (d ∷ cs) s.2)

pub last_chunk-eq-some :
    (c : Chunk) (cs : List Chunk) → (p : Chunk) × (last_chunk (c ∷ cs) ≡ some p)
unfolding last_chunk
last_chunk-eq-some c [] = (c, refl)
last_chunk-eq-some c (d ∷ cs) = last_chunk-eq-some d cs

append-Spaced :
    (top lo : ℕ) (c : Chunk) (cs : List Chunk) (p d : Chunk)
    → Spaced top lo (c ∷ cs)
    → last_chunk (c ∷ cs) ≡ some p
    → p.start + p.size + header_size ≤ d.start
    → d.start + d.size ≤ top
    → Spaced top lo (c ∷ (cs ++ (d ∷ [])))
unfolding last_chunk
append-Spaced top lo c [] p d s e h t = ground arith
append-Spaced top lo c (c' ∷ cs) p d s e h t =
    (s.0, s.1, append-Spaced top (c.start + c.size + header_size) c' cs p d s.2 e h t)

-- An allocation keeps the spacing.
pub allocate-Spaced :
    (top lo limit n : ℕ) (c : Chunk) (cs : List Chunk)
    → limit + header_size ≤ top
    → top < 2 ^ 63
    → n < 2 ^ 63
    → Spaced top lo (c ∷ cs)
    → Ensures (λ (r : ℕ × List Chunk). Spaced top lo r.1) (allocate limit n (c ∷ cs))
unfolding allocate chunk_behind
allocate-Spaced top lo limit n c cs hl ht hn s = elim (Option-cases (take_first_fit n (c ∷ cs))) [
  | inl e ↦
      let (p, q) = last_chunk-eq-some c cs in
      ground (
        arith,
        last_chunk-Spaced top lo (c ∷ cs) s,
        append-Spaced top lo c cs p (chunk_behind p n) s q,
      )
  | inr (r, e) ↦ ground (arith, take_first_fit-Spaced top lo n (c ∷ cs) s)
]
