-- ===== src/Memory/Chunks/Heap.antt =====
-- What an allocation and a release promise of a heap between `lo` and `top`.
use so_realtime.Prelude.{
  ℕ, ◌+◌, ◌^◌, ◌≤◌, ◌<◌, ◌≡◌, ◌⊎◌, inl, inr, List, [], ◌∷◌, length, arith, Ensures, Ensures-map,
  Ensures-both, OnSome, Option-cases, true, ◌∙◌,
}
use so_realtime.Memory.Chunks.{
  Chunk, header_size, take_first_fit, allocate, release, release_here, release_into, release_after,
}
use so_realtime.Memory.Chunks.Spacing.{Spaced, allocate-Spaced, release-Spaced, last_chunk-eq-some}
use so_realtime.Memory.Chunks.Blocks.{
  used_blocks, erase_block, is_used, Disjoint, Refused, Served, allocate-used_blocks,
  release-used_blocks, used_blocks-Apart, Disjoint-of_Apart, is_used-eq-false, is_used-insert_block,
  erase_block-insert_block,
}

-- At least one chunk, and all of them spaced.
abbrev pub IsHeap : ℕ → ℕ → List Chunk → Type 0
IsHeap top lo cs = (0 < length cs) × Spaced top lo cs

take_first_fit_nonempty :
    (n : ℕ) (cs : List Chunk)
    → OnSome (λ (r : ℕ × List Chunk). 0 < length r.1) (take_first_fit n cs)
unfolding take_first_fit
take_first_fit_nonempty n [] = tt
take_first_fit_nonempty n (c ∷ cs) = ground (arith, take_first_fit_nonempty n cs)

allocate_nonempty :
    (limit n : ℕ) (c : Chunk) (cs : List Chunk)
    → Ensures (λ (r : ℕ × List Chunk). 0 < length r.1) (allocate limit n (c ∷ cs))
unfolding allocate
allocate_nonempty limit n c cs = elim (Option-cases (take_first_fit n (c ∷ cs))) [
  | inl e ↦ let (p, q) = last_chunk-eq-some c cs in ground arith
  | inr (r, e) ↦ ground (arith, take_first_fit_nonempty n (c ∷ cs))
]

release_nonempty : (a : ℕ) (cs : List Chunk) → 0 < length cs → 0 < length (release a cs)
unfolding release release_here release_after release_into
release_nonempty a [] h = h
release_nonempty a (c ∷ []) h = ground arith
release_nonempty a (c ∷ d ∷ []) h = ground arith
release_nonempty a (c ∷ d ∷ e ∷ cs) h = ground arith

-- What an allocation of `n` bytes comes to: nothing, or a block of its own.
abbrev pub Placed : ℕ → ℕ → ℕ → List Chunk → ℕ × List Chunk → Type 0
Placed limit lo n cs r = Refused limit n cs r ⊎ (Served lo n cs r × Disjoint r.0 n (used_blocks cs))

-- The release of a block that was allocated leaves the blocks in use as they were before.
abbrev pub Undone : List Chunk → ℕ × List Chunk → Type 0
Undone cs r = (r.0 ≡ 0) ⊎ (used_blocks (release r.0 r.1) ≡ used_blocks cs)

module _ (top lo limit : ℕ) (fits : limit + header_size ≤ top) (small : top < 2 ^ 63) where
  pub allocate-IsHeap :
      (n : ℕ) (cs : List Chunk)
      → n < 2 ^ 63
      → IsHeap top lo cs
      → Ensures (λ (r : ℕ × List Chunk). IsHeap top lo r.1) (allocate limit n cs)
  allocate-IsHeap n [] hn v = absurd (omega arith)
  allocate-IsHeap n (c ∷ cs) hn v =
      Ensures-both _ _ _ (allocate_nonempty limit n c cs)
        (allocate-Spaced top lo limit n c cs fits small hn v.1)

  pub release-IsHeap : (a : ℕ) (cs : List Chunk) → IsHeap top lo cs → IsHeap top lo (release a cs)
  release-IsHeap a cs v = (release_nonempty a cs v.0, release-Spaced top lo a cs small v.1)

  pub allocate_lem :
      (n : ℕ) (cs : List Chunk)
      → n < 2 ^ 63
      → IsHeap top lo cs
      → Ensures
          (λ (r : ℕ × List Chunk). IsHeap top lo r.1 × Placed limit lo n cs r)
          (allocate limit n cs)
  allocate_lem n [] hn v = absurd (omega arith)
  allocate_lem n (c ∷ cs) hn v =
      Ensures-map (λ r. IsHeap top lo r.1 × (Refused limit n (c ∷ cs) r ⊎ Served lo n (c ∷ cs) r))
        (λ r. IsHeap top lo r.1 × Placed limit lo n (c ∷ cs) r) (allocate limit n (c ∷ cs))
        (λ r h. (
          h.0,
          elim h.1 [
            | inl no_room ↦ inl no_room
            | inr served ↦ inr (
              served,
              Disjoint-of_Apart lo r.0 n (used_blocks (c ∷ cs))
                  (rw served.1 at (used_blocks-Apart top lo r.1 h.0.1)),
            )
          ],
        ))
        (Ensures-both (λ r. IsHeap top lo r.1)
          (λ r. Refused limit n (c ∷ cs) r ⊎ Served lo n (c ∷ cs) r) (allocate limit n (c ∷ cs))
          (allocate-IsHeap n (c ∷ cs) hn v)
          (allocate-used_blocks top lo limit n c cs fits small hn v.1))

  Undone-of_Placed :
      (n : ℕ) (cs : List Chunk) (r : ℕ × List Chunk)
      → IsHeap top lo r.1
      → Placed limit lo n cs r
      → Undone cs r
  Undone-of_Placed n cs r h (inl no_room) = inl no_room.0
  Undone-of_Placed n cs r h (inr (served, apart)) =
      let used : is_used r.0 (used_blocks r.1) ≡ true =
        rw served.1 (is_used-insert_block r.0 n (used_blocks cs)) in
      inr (
        release-used_blocks top lo r.0 r.1 small h.1 used
        ∙ rw served.1 (
            erase_block-insert_block r.0 n (used_blocks cs)
              (is_used-eq-false r.0 n (used_blocks cs) apart)))

  pub release-allocate :
      (n : ℕ) (cs : List Chunk)
      → n < 2 ^ 63
      → IsHeap top lo cs
      → Ensures (Undone cs) (allocate limit n cs)
  release-allocate n cs hn v =
      Ensures-map (λ r. IsHeap top lo r.1 × Placed limit lo n cs r) (Undone cs)
        (allocate limit n cs) (λ r h. Undone-of_Placed n cs r h.0 h.1) (allocate_lem n cs hn v)

  -- The block at a start that is in use goes, and no other.
  pub release_lem :
      (a : ℕ) (cs : List Chunk)
      → IsHeap top lo cs
      → is_used a (used_blocks cs) ≡ true
      → IsHeap top lo (release a cs) × (used_blocks (release a cs) ≡ erase_block a (used_blocks cs))
  release_lem a cs v h = (release-IsHeap a cs v, release-used_blocks top lo a cs small v.1 h)
