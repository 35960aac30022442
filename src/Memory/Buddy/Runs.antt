-- ===== src/Memory/Buddy/Runs.antt =====
-- The trees that requests and releases lead to.
use so_realtime.Prelude.{ℕ, ◌+◌, ◌*◌, ◌/◌, ◌^◌, ◌≤◌, ◌<◌, ◌≡◌, List, [], ◌∷◌, ◌++◌, arith, done}
use so_realtime.Memory.Chunks.{Chunk}
use so_realtime.Memory.Buddy.{Node, free, alloc, split, Reply, buddy_alloc, buddy_free}
use so_realtime.Memory.Buddy.Shape.{Covers, allocated}
use so_realtime.Memory.Buddy.Room.{HasRoom}
use so_realtime.Memory.Buddy.Contract.{IsTree, buddy_alloc_lem, buddy_free_lem}

-- The blocks lie in `[lo, hi)`, one behind the other.
abbrev pub Packed : ℕ → ℕ → List (ℕ × ℕ) → Type 0
Packed lo hi [] = lo ≤ hi
Packed lo hi ((i, m) ∷ bs) = (lo ≤ i) × (0 < m) × Packed (i + m) hi bs

Packed-append :
    (lo mid hi : ℕ) (xs ys : List (ℕ × ℕ))
    → Packed lo mid xs
    → Packed mid hi ys
    → Packed lo hi (xs ++ ys)
Packed-append lo mid hi [] [] p q = omega arith
Packed-append lo mid hi [] (y ∷ ys) p q = (omega arith, q.1, q.2)
Packed-append lo mid hi (x ∷ xs) ys p q = (p.0, p.1, Packed-append (x.0 + x.1) mid hi xs ys p.2 q)

Packed-weaken : (lo mid hi : ℕ) (xs : List (ℕ × ℕ)) → mid ≤ hi → Packed lo mid xs → Packed lo hi xs
Packed-weaken lo mid hi [] h p = omega arith
Packed-weaken lo mid hi (x ∷ xs) h p = (p.0, p.1, Packed-weaken (x.0 + x.1) mid hi xs h p.2)

allocated-Packed : (t : Node) (k n : ℕ) → Covers k n t → Packed k (k + n) (allocated t)
allocated-Packed (free a i s) k n c = omega arith
allocated-Packed (alloc a i s) k n c = omega arith
allocated-Packed (split a i s l r) k n (ci, cs, cn, cl, cr) =
    Packed-weaken k (k + n / 2 + n / 2) (k + n) (allocated l ++ allocated r) (omega arith) (
      Packed-append k (k + n / 2) (k + n / 2 + n / 2) (allocated l) (allocated r)
        (allocated-Packed l k (n / 2) cl) (allocated-Packed r (k + n / 2) (n / 2) cr))

-- The trees over `n` bytes, with the kernel's heap then, that calls of `buddy_alloc` and `buddy_free` in any
-- order lead to from the one FREE node of `buddy_init`. A request is of at least one byte, with room in the
-- heap for two nodes for each of `d` halvings; between the calls, the rest of the kernel may change the heap.
pub data Reaches (d n : ℕ) : Node → List Chunk → Type 0 where
  start : (a : ℕ) (heap : List Chunk) → Reaches d n (free a 0 n) heap
  request :
      (size : ℕ) (t : Node) (heap : List Chunk) (o : Reply)
      → Reaches d n t heap
      → 0 < size
      → HasRoom (2 * d) heap
      → buddy_alloc t size heap ≡ done o
      → Reaches d n o.1 o.2
  release :
      (idx : ℕ) (t : Node) (heap : List Chunk)
      → Reaches d n t heap
      → Reaches d n (buddy_free t idx heap).1 (buddy_free t idx heap).2
  elsewhere : (t : Node) (heap heap' : List Chunk) → Reaches d n t heap → Reaches d n t heap'

Reaches-IsTree :
    (d n : ℕ) (t : Node) (heap : List Chunk)
    → 0 < n
    → n < 2 ^ d
    → d ≤ n
    → n < 2 ^ 63
    → Reaches d n t heap
    → IsTree 0 n t
Reaches-IsTree d n _ _ some_byte h k small (start a heap) = record {
  covers = omega arith;
  coalesced = tt;
  small = omega arith;
}
Reaches-IsTree d n _ _ some_byte h k small (request size t heap o before pos room returns) =
    let granted =
      buddy_alloc_lem d 0 n size t heap pos (Reaches-IsTree d n t heap some_byte h k small before) h
        k room in
    (rw returns at granted).0
Reaches-IsTree d n _ _ some_byte h k small (release idx t heap before) =
    (buddy_free_lem 0 n idx t heap (Reaches-IsTree d n t heap some_byte h k small before)).0
Reaches-IsTree d n _ _ some_byte h k small (elsewhere t heap heap' before) =
    Reaches-IsTree d n t heap some_byte h k small before

-- Whatever requests and releases follow `buddy_init` of `n` bytes, in any order, the blocks in use are
-- never empty, lie in the range of the pool, and do not overlap. There are one or more bytes, fewer than
-- 2^63; a request is of at least one byte, and finds room in the kernel's heap for the nodes of `d`
-- halvings, where `n < 2 ^ d` and `d` is at most `n`.
pub Reaches-Packed :
    (d n : ℕ) (t : Node) (heap : List Chunk)
    → 0 < n
    → n < 2 ^ d
    → d ≤ n
    → n < 2 ^ 63
    → Reaches d n t heap
    → Packed 0 n (allocated t)
Reaches-Packed d n t heap some_byte h k small r =
    let e : 0 + n ≡ n = omega arith in
    rw e at (allocated-Packed t 0 n (Reaches-IsTree d n t heap some_byte h k small r).covers)
