-- ===== src/Memory/Memlib/Pages.antt =====
-- Sizes in pages, and where the blocks of the buddy system lie.
use so_realtime.Prelude.{
  ℕ, ◌+◌, ◌-◌, ◌*◌, ◌%◌, ◌^◌, ◌≤◌, ◌<◌, ◌≡◌, ◌⊎◌, inl, inr, ap, arith, List, false, ltb, Ensures,
  Ensures-bind, Fails, Fails-bind,
}
use so_realtime.Memory.Chunks.{Chunk}
use so_realtime.Memory.Buddy.{Node, free, ready, Reply, buddy_alloc, buddy_free}
use so_realtime.Memory.Buddy.Grant.{Granted, Denied}
use so_realtime.Memory.Buddy.Room.{HasRoom}
use so_realtime.Memory.Buddy.Contract.{IsTree, buddy_alloc_lem, alloc_node_zero}
use so_realtime.Memory.Memlib.{
  page_size, paged_size, mem_start, Memory, with_head, get_memblock, free_memblock, block_address,
}

-- For a size that does not come within a page of 2^64, the size in whole pages holds the size, with less
-- than a page to spare.
pub paged_size_lem :
    (size : ℕ)
    → size + page_size < 2 ^ 64
    → (paged_size size % page_size ≡ 0)
      × (size ≤ paged_size size)
      × (paged_size size < size + page_size)
unfolding paged_size
paged_size_lem size h = ground arith

-- A block that the buddy system grants at the index `i` below 2^31 is answered as `MEM_START + i`.
block_address_lem : (i : ℕ) → i < 2 ^ 31 → block_address i ≡ mem_start + i
block_address_lem i h = ground arith

-- `get_memblock` of no bytes never returns when the pool is one FREE node.
pub get_memblock_zero :
    (p a i s : ℕ) (heap : List Chunk)
    → Fails (get_memblock 0 (record { pool = ready p (free a i s); heap = heap }))
unfolding get_memblock buddy_alloc
get_memblock_zero p a i s heap = Fails-bind _ _ (alloc_node_zero (s + 1) a i s heap)

abbrev pub with_tree : ℕ → Node → List Chunk → Memory
with_tree p t heap = record { pool = ready p t; heap = heap }

-- What a client of `get_memblock` is told: NULL, or an address from `MEM_START` on, behind which the
-- bytes asked for lie in the range of the pool's size.
abbrev pub BlockGiven : ℕ → ℕ → ℕ × Memory → Type 0
BlockGiven size n r = (r.0 ≡ 0) ⊎ ((mem_start ≤ r.0) × (r.0 + size ≤ mem_start + n))

-- The release of an answer, if it is not NULL, succeeds and restores the pool.
abbrev pub BlockReturned : ℕ → Node → ℕ × Memory → Type 0
BlockReturned p t r =
    (r.0 ≡ 0)
    ⊎ Ensures (λ (q : ℕ × Memory). (q.0 ≡ 0) × (q.1.pool ≡ ready p t)) (free_memblock r.0 r.1)

module _ (d p n size : ℕ) (t : Node) (heap : List Chunk) (pos : 0 < size)
    (page : size + page_size < 2 ^ 64) (v : IsTree 0 n t) (small : n ≤ 2 ^ 31) (hd : n < 2 ^ d)
    (hn : d ≤ n) (room : HasRoom (2 * d) heap) where
  abbrev ReplyOf : Reply → Type 0
  ReplyOf o =
      IsTree 0 n o.1 × (Denied (paged_size size) t heap o ⊎ Granted 0 n (paged_size size) t o)

  paged_pos : 0 < paged_size size
  paged_pos = omega (arith, paged_size_lem size page)

  answer : Ensures ReplyOf (buddy_alloc t (paged_size size) heap)
  answer = buddy_alloc_lem d 0 n (paged_size size) t heap paged_pos v hd hn room

  given : (o : Reply) → ReplyOf o → BlockGiven size n (block_address o.0, with_head p o)
  given o (w, inl denied) = inl (rw denied.0)
  given o (w, inr g) = inr (
      rw (block_address_lem o.0 (omega (arith, g.high, g.fits, paged_pos)))
        (omega (arith, g.high, g.fits, paged_size_lem size page)))

  -- For a request of at least one byte of a pool of at most 2^31 bytes whose tree is well formed, and with
  -- room in the kernel's heap for the nodes of `d` halvings, `get_memblock` returns. It answers NULL, or
  -- an address from `MEM_START` on, from which the bytes asked for lie within the pool's size.
  pub get_memblock_lem : Ensures (BlockGiven size n) (get_memblock size (with_tree p t heap))
  unfolding get_memblock
  get_memblock_lem =
      Ensures-bind ReplyOf (BlockGiven size n) (buddy_alloc t (paged_size size) heap) _ given answer

  returned : (o : Reply) → ReplyOf o → BlockReturned p t (block_address o.0, with_head p o)
  unfolding free_memblock buddy_free
  returned o (w, inl denied) = inl (rw denied.0)
  returned o (w, inr g) =
      let e : mem_start + o.0 - mem_start ≡ o.0 = omega arith in
      let e' : ltb (mem_start + o.0) mem_start ≡ false = ground arith in
      inr (
        rw (block_address_lem o.0 (omega (arith, g.high, g.fits, paged_pos)), e', e)
          ((g.undone o.2).0, ap (λ t'. ready p t') (g.undone o.2).1))

  -- Under the same conditions, `free_memblock` of an answer that is not NULL answers 0 and restores the
  -- pool.
  pub free_memblock-get_memblock :
      Ensures (BlockReturned p t) (get_memblock size (with_tree p t heap))
  unfolding get_memblock
  free_memblock-get_memblock =
      Ensures-bind ReplyOf (BlockReturned p t) (buddy_alloc t (paged_size size) heap) _ returned
        answer
