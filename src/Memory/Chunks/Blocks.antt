-- ===== src/Memory/Chunks/Blocks.antt =====
-- The abstract view of a heap: the blocks in use, as (start, size), in the order of their starts.
-- An allocation inserts a block there, and a release erases one.
use so_realtime.Prelude.{
  ℕ, ◌+◌, ◌^◌, ◌≤◌, ◌<◌, ◌≡◌, ◌⊎◌, Bool, true, false, ◌||◌, refl, none, some, inl, inr,
  Option-cases, Bool-cases, List, [], ◌∷◌, ◌++◌, arith, OnSome, Ensures, ltb, ◌==◌, if◌then◌else◌,
}
use so_realtime.Memory.Chunks.{
  Chunk, fresh_chunk, header_size, take_first_fit, last_chunk, chunk_behind, allocate, near,
  release_here, release_into, release_after, release,
}
use so_realtime.Memory.Chunks.Spacing.{Spaced, last_chunk-eq-some, last_chunk-Spaced}

abbrev pub Block : Type 0
Block = ℕ × ℕ

unfoldable pub used_blocks : List Chunk → List Block
used_blocks [] = []
used_blocks (c ∷ cs) = if c.used then (c.start, c.size) ∷ used_blocks cs else used_blocks cs

unfoldable pub insert_block : ℕ → ℕ → List Block → List Block
insert_block a n [] = (a, n) ∷ []
insert_block a n ((b, m) ∷ bs) =
    if ltb a b then (a, n) ∷ (b, m) ∷ bs else (b, m) ∷ insert_block a n bs

unfoldable pub erase_block : ℕ → List Block → List Block
erase_block a [] = []
erase_block a ((b, m) ∷ bs) = if a == b then bs else (b, m) ∷ erase_block a bs

unfoldable pub is_used : ℕ → List Block → Bool
is_used a [] = false
is_used a ((b, m) ∷ bs) = a == b || is_used a bs

-- No two blocks share a byte, nor a block and the header of another.
abbrev pub Apart : ℕ → List Block → Type 0
Apart lo [] = Unit
Apart lo ((b, m) ∷ bs) = (lo ≤ b) × Apart (b + m + header_size) bs

Apart-weaken : (lo lo' : ℕ) (bs : List Block) → lo' ≤ lo → Apart lo bs → Apart lo' bs
Apart-weaken lo lo' [] h s = tt
Apart-weaken lo lo' ((b, m) ∷ bs) h s = (omega arith, s.1)

pub used_blocks-Apart :
    (top lo : ℕ) (cs : List Chunk) → Spaced top lo cs → Apart lo (used_blocks cs)
unfolding used_blocks
used_blocks-Apart top lo [] s = tt
used_blocks-Apart top lo (c ∷ cs) s = ground (
  arith,
  used_blocks-Apart top (c.start + c.size + header_size) cs s.2,
  Apart-weaken (c.start + c.size + header_size) lo (used_blocks cs),
)

insert_block-front :
    (lo a n : ℕ) (bs : List Block) → Apart lo bs → a < lo → insert_block a n bs ≡ (a, n) ∷ bs
unfolding insert_block
insert_block-front lo a n [] s h = refl
insert_block-front lo a n ((b, m) ∷ bs) s h = ground arith

take_first_fit-used_blocks :
    (top lo n : ℕ) (cs : List Chunk)
    → Spaced top lo cs
    → OnSome
        (λ (r : ℕ × List Chunk).
          (lo ≤ r.0) × (used_blocks r.1 ≡ insert_block r.0 n (used_blocks cs)))
        (take_first_fit n cs)
unfolding take_first_fit used_blocks insert_block
take_first_fit-used_blocks top lo n [] s = tt
take_first_fit-used_blocks top lo n (c ∷ cs) s = ground (
  arith,
  take_first_fit-used_blocks top (c.start + c.size + header_size) n cs s.2,
  insert_block-front (c.start + c.size + header_size) c.start n (used_blocks cs)
      (used_blocks-Apart top (c.start + c.size + header_size) cs s.2),
)

-- Every unused chunk is too small.
pub NoFit : ℕ → List Chunk → Type 0
NoFit n [] = Unit
NoFit n (c ∷ cs) = ((c.used ≡ true) ⊎ (c.size < n)) × NoFit n cs

take_first_fit-NoFit : (n : ℕ) (cs : List Chunk) → take_first_fit n cs ≡ none → NoFit n cs
unfolding take_first_fit NoFit
take_first_fit-NoFit n [] e = tt
take_first_fit-NoFit n (c ∷ cs) e = ground (arith, take_first_fit-NoFit n cs)

used_blocks-append :
    (top lo : ℕ) (c : Chunk) (cs : List Chunk) (p : Chunk) (a n : ℕ)
    → Spaced top lo (c ∷ cs)
    → last_chunk (c ∷ cs) ≡ some p
    → p.start + p.size < a
    → used_blocks (c ∷ (cs ++ (fresh_chunk a n ∷ []))) ≡ insert_block a n (used_blocks (c ∷ cs))
unfolding last_chunk used_blocks insert_block
used_blocks-append top lo c [] p a n s e h = ground arith
used_blocks-append top lo c (d ∷ cs) p a n s e h = ground (
  arith,
  used_blocks-append top (c.start + c.size + header_size) d cs p a n s.2 e h,
  last_chunk-Spaced top (c.start + c.size + header_size) (d ∷ cs) s.2,
)

-- An allocation answers `NULL` and changes nothing: no unused chunk holds `n` bytes, and behind the
-- last chunk `n` bytes do not fit below the limit.
abbrev pub Refused : ℕ → ℕ → List Chunk → ℕ × List Chunk → Type 0
Refused limit n cs r =
    (r.0 ≡ 0)
    × (r.1 ≡ cs)
    × NoFit n cs
    × OnSome (λ (p : Chunk). limit < p.start + p.size + n) (last_chunk cs)

-- It answers an address from `lo` on, and the block of `n` bytes there is in use besides the others.
abbrev pub Served : ℕ → ℕ → List Chunk → ℕ × List Chunk → Type 0
Served lo n cs r = (lo ≤ r.0) × (used_blocks r.1 ≡ insert_block r.0 n (used_blocks cs))

pub allocate-used_blocks :
    (top lo limit n : ℕ) (c : Chunk) (cs : List Chunk)
    → limit + header_size ≤ top
    → top < 2 ^ 63
    → n < 2 ^ 63
    → Spaced top lo (c ∷ cs)
    → Ensures
        (λ (r : ℕ × List Chunk). Refused limit n (c ∷ cs) r ⊎ Served lo n (c ∷ cs) r)
        (allocate limit n (c ∷ cs))
unfolding allocate chunk_behind
allocate-used_blocks top lo limit n c cs hl ht hn s =
    elim (Option-cases (take_first_fit n (c ∷ cs))) [
      | inl e ↦
          let (p, q) = last_chunk-eq-some c cs in
          ground (
            arith,
            take_first_fit-NoFit n (c ∷ cs) e,
            last_chunk-Spaced top lo (c ∷ cs) s,
            used_blocks-append top lo c cs p (chunk_behind p n).start n s q,
          )
      | inr (r, e) ↦ ground (arith, take_first_fit-used_blocks top lo n (c ∷ cs) s)
    ]

near_self : (c : Chunk) → near c.start c ≡ true
unfolding near
near_self c = ground arith

near-eq-false : (a : ℕ) (c : Chunk) → c.start + c.size < a → a < 2 ^ 63 → near a c ≡ false
unfolding near
near-eq-false a c h k = ground arith

is_used_bounds :
    (top lo a : ℕ) (cs : List Chunk)
    → Spaced top lo cs
    → is_used a (used_blocks cs) ≡ true
    → (lo ≤ a) × (a ≤ top)
unfolding used_blocks is_used
is_used_bounds top lo a [] s h = cc
is_used_bounds top lo a (c ∷ cs) s h =
    ground (arith, is_used_bounds top (c.start + c.size + header_size) a cs s.2)

release_here-used_blocks :
    (c : Chunk) (cs : List Chunk) → used_blocks (release_here c cs) ≡ used_blocks cs
unfolding release_here used_blocks
release_here-used_blocks c [] = refl
release_here-used_blocks c (d ∷ ds) = ground arith

release_into-used_blocks :
    (p c : Chunk) (cs : List Chunk)
    → p.used ≡ false
    → used_blocks (release_into p c cs) ≡ used_blocks cs
unfolding release_into used_blocks
release_into-used_blocks p c [] h = ground arith
release_into-used_blocks p c (d ∷ ds) h = ground arith

release_after-used_blocks :
    (top lo a : ℕ) (p : Chunk) (cs : List Chunk)
    → top < 2 ^ 63
    → Spaced top lo (p ∷ cs)
    → is_used a (used_blocks cs) ≡ true
    → used_blocks (release_after a p cs) ≡ erase_block a (used_blocks (p ∷ cs))
unfolding release_after used_blocks erase_block is_used
release_after-used_blocks top lo a p [] ht s h = cc
release_after-used_blocks top lo a p (c ∷ cs) ht s h = ground (
  arith,
  near_self c,
  near-eq-false a c,
  is_used_bounds top (p.start + p.size + header_size) a (c ∷ cs) s.2,
  is_used_bounds top (c.start + c.size + header_size) a cs s.2.2,
  release_here-used_blocks c cs,
  release_into-used_blocks p c cs,
  release_after-used_blocks top (p.start + p.size + header_size) a c cs ht s.2,
)

pub release-used_blocks :
    (top lo a : ℕ) (cs : List Chunk)
    → top < 2 ^ 63
    → Spaced top lo cs
    → is_used a (used_blocks cs) ≡ true
    → used_blocks (release a cs) ≡ erase_block a (used_blocks cs)
unfolding release used_blocks erase_block is_used
release-used_blocks top lo a [] ht s h = cc
release-used_blocks top lo a (c ∷ cs) ht s h = ground (
  arith,
  near_self c,
  near-eq-false a c,
  is_used_bounds top (c.start + c.size + header_size) a cs s.2,
  release_here-used_blocks c cs,
  release_after-used_blocks top lo a c cs ht s,
)

pub is_used-insert_block : (a n : ℕ) (bs : List Block) → is_used a (insert_block a n bs) ≡ true
unfolding is_used insert_block
is_used-insert_block a n [] = ground arith
is_used-insert_block a n ((b, m) ∷ bs) = ground (arith, is_used-insert_block a n bs)

pub erase_block-insert_block :
    (a n : ℕ) (bs : List Block) → is_used a bs ≡ false → erase_block a (insert_block a n bs) ≡ bs
unfolding is_used insert_block erase_block
erase_block-insert_block a n [] h = ground arith
erase_block-insert_block a n ((b, m) ∷ bs) h = ground (arith, erase_block-insert_block a n bs)

-- The two ways in which a block stands before the others or behind the first of them.
Apart-insert_block_cases :
    (lo a n b m : ℕ) (bs : List Block)
    → Apart lo (insert_block a n ((b, m) ∷ bs))
    → ((a < b) × (lo ≤ a) × Apart (a + n + header_size) ((b, m) ∷ bs))
      ⊎ ((b ≤ a) × (lo ≤ b) × Apart (b + m + header_size) (insert_block a n bs))
unfolding insert_block
Apart-insert_block_cases lo a n b m bs h = elim (Bool-cases (ltb a b)) [
  | inl e ↦
      let k : Apart lo ((a, n) ∷ (b, m) ∷ bs) = rw (insert_block, e) at h in
      inl (ground arith, k.0, k.1)
  | inr e ↦
      let k : Apart lo ((b, m) ∷ insert_block a n bs) = rw (insert_block, e) at h in
      inr (ground arith, k.0, k.1)
]

Apart-insert_block_bound : (lo a n : ℕ) (bs : List Block) → Apart lo (insert_block a n bs) → lo ≤ a
unfolding insert_block
Apart-insert_block_bound lo a n [] h = h.0
Apart-insert_block_bound lo a n ((b, m) ∷ bs) h = elim (Apart-insert_block_cases lo a n b m bs h) [
  | inl (p, q, r) ↦ q
  | inr (p, q, r) ↦ omega (arith, Apart-insert_block_bound (b + m + header_size) a n bs r)
]

-- The block of `n` bytes at `a` shares no byte with any of the blocks, and begins elsewhere.
abbrev pub Disjoint : ℕ → ℕ → List Block → Type 0
Disjoint a n [] = Unit
Disjoint a n ((b, m) ∷ bs) = ((a + n < b) ⊎ (b + m < a)) × Disjoint a n bs

Disjoint-below : (lo a n : ℕ) (bs : List Block) → Apart lo bs → a + n < lo → Disjoint a n bs
Disjoint-below lo a n [] s h = tt
Disjoint-below lo a n ((b, m) ∷ bs) s h =
    (inl (omega arith), Disjoint-below (b + m + header_size) a n bs s.1 (omega arith))

pub Disjoint-of_Apart :
    (lo a n : ℕ) (bs : List Block) → Apart lo (insert_block a n bs) → Disjoint a n bs
Disjoint-of_Apart lo a n [] h = tt
Disjoint-of_Apart lo a n ((b, m) ∷ bs) h = elim (Apart-insert_block_cases lo a n b m bs h) [
  | inl (p, q, r) ↦ Disjoint-below (a + n + header_size) a n ((b, m) ∷ bs) r (omega arith)
  | inr (p, q, r) ↦ (
    inr (omega (arith, Apart-insert_block_bound (b + m + header_size) a n bs r)),
    Disjoint-of_Apart (b + m + header_size) a n bs r,
  )
]

pub is_used-eq-false : (a n : ℕ) (bs : List Block) → Disjoint a n bs → is_used a bs ≡ false
unfolding is_used
is_used-eq-false a n [] h = refl
is_used-eq-false a n ((b, m) ∷ bs) h = ground (arith, is_used-eq-false a n bs)
