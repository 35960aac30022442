-- ===== src/Memory/Buddy/Contract.antt =====
-- What the buddy system promises of a tree over `n` bytes from index `k` on.
use so_realtime.Prelude.{
  ℕ, zero, suc, ◌+◌, ◌*◌, ◌/◌, ◌^◌, ◌≤◌, ◌<◌, ◌≡◌, ◌⊎◌, inl, inr, List, [], arith, minus_one,
  if◌then◌else◌, Bool-cases, Ensures, Ensures-map, ltb, leb, ◌==◌, ◌||◌, Fails, Fails-bind_all,
  Fails-bind, true, false,
}
use so_realtime.Memory.Chunks.{Chunk}
use so_realtime.Memory.Chunks.Blocks.{is_used, erase_block}
use so_realtime.Memory.Kmem.{kmalloc}
use so_realtime.Memory.Buddy.{
  Node, free, alloc, split, node_size, address, sizeof_node, Reply, carve, alloc_node, buddy_alloc,
  buddy_free,
}
use so_realtime.Memory.Buddy.Shape.{Covers, Coalesced, allocated, allocated-eq-nil}
use so_realtime.Memory.Buddy.Grant.{Granted, Denied, Answered}
use so_realtime.Memory.Buddy.Room.{HasRoom, alloc_node-Answered}
use so_realtime.Memory.Buddy.Release.{free_node-Covers, free_node-Coalesced, free_node-allocated}

-- A tree whose nodes divide its range, with no split of two FREE halves.
pub record IsTree (k n : ℕ) (t : Node) : Type 0 where
  pub covers : Covers k n t
  pub coalesced : Coalesced t
  pub small : k + n < 2 ^ 63

node_size-Covers : (t : Node) (k n : ℕ) → Covers k n t → node_size t ≡ n
node_size-Covers (free a i s) k n c = c.1
node_size-Covers (alloc a i s) k n c = c.1
node_size-Covers (split a i s l r) k n c = c.1

-- For a request of at least one byte of a well-formed tree over `n < 2 ^ d` bytes, and with room in the
-- kernel's heap for two nodes for each of `d` halvings, `buddy_alloc` returns. It leaves a well-formed
-- tree over the same range. Either it answers -1 and changes nothing, and then no FREE node is large
-- enough. Or it answers the index of a block of the range that is at least as large as the request, which
-- is one block more among those in use, and whose release gives back the tree as it was.
pub buddy_alloc_lem :
    (d k n size : ℕ) (t : Node) (heap : List Chunk)
    → 0 < size
    → IsTree k n t
    → n < 2 ^ d
    → d ≤ n
    → HasRoom (2 * d) heap
    → Ensures
        (λ (o : Reply). IsTree k n o.1 × (Denied size t heap o ⊎ Granted k n size t o))
        (buddy_alloc t size heap)
unfolding buddy_alloc
buddy_alloc_lem d k n size t heap pos v h hd room = rw (node_size-Covers t k n v.covers) (
    Ensures-map (Answered k n size t heap)
      (λ (o : Reply). IsTree k n o.1 × (Denied size t heap o ⊎ Granted k n size t o))
      (alloc_node (n + 1) t size heap)
      (λ o a. (record { covers = a.0; coalesced = a.1; small = v.small }, a.2))
      (alloc_node-Answered d (n + 1) t k n size heap pos (omega arith) v.small v.covers v.coalesced
        h (omega arith) room))

-- At any index, `buddy_free` keeps a tree well formed over its range, answers 0 if a block in use begins
-- at the index and -1 if not, and takes that block and no other out of the blocks in use.
pub buddy_free_lem :
    (k n idx : ℕ) (t : Node) (heap : List Chunk)
    → IsTree k n t
    → let (rt, t', heap') = buddy_free t idx heap in
      IsTree k n t'
      × (rt ≡ (if is_used idx (allocated t) then 0 else minus_one))
      × (allocated t' ≡ erase_block idx (allocated t))
unfolding buddy_free
buddy_free_lem k n idx t heap v =
    let (e, e') = free_node-allocated t k n idx heap v.covers in
    (
      record {
        covers = free_node-Covers t k n idx heap v.covers;
        coalesced = free_node-Coalesced t idx heap v.coalesced;
        small = v.small;
      },
      e,
      e',
    )

-- A well-formed tree with no block in use is a single FREE node over the whole range: whatever the order
-- of the releases, all space is joined again.
pub all_free : (k n : ℕ) (t : Node) → IsTree k n t → allocated t ≡ [] → t ≡ free (address t) k n
all_free k n t v e = allocated-eq-nil t k n v.covers v.coalesced e

carve_zero : (fuel a i s : ℕ) (heap : List Chunk) → Fails (carve fuel a i s 0 heap)
unfolding carve
carve_zero zero a i s heap = tt
carve_zero (suc fuel) a i s heap =
    let e : ltb s 0 ≡ false = ground arith in
    let e' : leb 0 (s / 2) ≡ true = ground arith in
    rw (e, e')
      (Fails-bind_all (kmalloc sizeof_node heap) _ (λ l.
        Fails-bind_all (kmalloc sizeof_node l.1) _ (λ r. elim (Bool-cases (l.0 == 0 || r.0 == 0)) [
          | inl null ↦ rw null tt
          | inr ok ↦
              rw ok
                (Fails-bind (carve fuel l.0 i (s / 2) 0 r.1) _ (carve_zero fuel l.0 i (s / 2) r.1))
        ])))

-- A request of 0 bytes of a FREE node never returns: whatever the fuel and the heap, the code halves the
-- node until it runs out of fuel or of memory for nodes.
pub alloc_node_zero :
    (fuel a i s : ℕ) (heap : List Chunk) → Fails (alloc_node fuel (free a i s) 0 heap)
unfolding alloc_node
alloc_node_zero fuel a i s heap = carve_zero fuel a i s heap
