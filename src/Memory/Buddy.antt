-- ===== src/Memory/Buddy.antt =====
-- Kernel/system/MemoryManagement/buddy.c: the buddy system. `buddy_head` points to a binary tree of
-- nodes, which stand in blocks of the kernel's heap: `_buddy_alloc` takes two such blocks for a split,
-- and `_buddy_free` gives them back.
pub mod Shape
pub mod Grant
pub mod Alloc
pub mod Release
pub mod Room
pub mod Size
pub mod Display
pub mod Contract
pub mod Runs
mod Tests
use so_realtime.Prelude.{
  ℕ, zero, suc, ◌+◌, ◌-◌, ◌/◌, ◌%◌, ◌^◌, Bool, true, false, ◌||◌, List, [], ◌∷◌, ◌++◌, ltb, leb,
  ◌==◌, if◌then◌else◌, minus_one, add64, nonneg64, Outcome, done, fault, timeout, ◌>>=◌,
}
use so_realtime.Memory.Chunks.{Chunk}
use so_realtime.Memory.Kmem.{kmalloc, kfree}

-- `node_t`, with a constructor for each `node_state`. The fields are the address of the node, `idx` and
-- `size`. Children are read in a split node only; elsewhere the code leaves null or stale pointers.
pub data Node : Type 0 where
  free : ℕ → ℕ → ℕ → Node
  alloc : ℕ → ℕ → ℕ → Node
  split : ℕ → ℕ → ℕ → Node → Node → Node

abbrev pub node_size : Node → ℕ
node_size (free a i s) = s
node_size (alloc a i s) = s
node_size (split a i s l r) = s

abbrev pub address : Node → ℕ
address (free a i s) = a
address (alloc a i s) = a
address (split a i s l r) = a

-- `sizeof(node_t)`
abbrev pub sizeof_node : ℕ
sizeof_node = 40

-- The result, the node as it is left, and the kernel's heap.
abbrev pub Reply : Type 0
Reply = ℕ × Node × List Chunk

-- `_buddy_alloc` at a FREE node, which goes on at the left half while that holds the request. A node
-- for which there is no memory is written to through a null pointer.
unfoldable pub carve : ℕ → ℕ → ℕ → ℕ → ℕ → List Chunk → Outcome Reply
carve zero a i s size heap = timeout
carve (suc fuel) a i s size heap =
    if ltb s size
    then done (minus_one, free a i s, heap)
    else if leb size (s / 2)
    then (kmalloc sizeof_node heap >>= λ l. kmalloc sizeof_node l.1 >>= λ r.
        if l.0 == 0 || r.0 == 0
        then fault
        else (carve fuel l.0 i (s / 2) size r.1 >>= λ o.
            done (o.0, split a i s o.1 (free r.0 (add64 i (s / 2)) (s / 2)), o.2)))
    else done (i, alloc a i s, heap)

-- `_buddy_alloc`
unfoldable pub alloc_node : ℕ → Node → ℕ → List Chunk → Outcome Reply
alloc_node fuel (free a i s) size heap = carve fuel a i s size heap
alloc_node fuel (alloc a i s) size heap = done (minus_one, alloc a i s, heap)
alloc_node fuel (split a i s l r) size heap = alloc_node fuel l size heap >>= λ o.
    if nonneg64 o.0
    then done (o.0, split a i s o.1 r, o.2)
    else (alloc_node fuel r size o.2 >>= λ q. done (q.0, split a i s o.1 q.1, q.2))

-- A split whose halves are both FREE becomes FREE, and its children are given back.
unfoldable pub merge : ℕ → ℕ → ℕ → Node → Node → List Chunk → Node × List Chunk
merge a i s (free la li ls) (free ra ri rs) heap = (free a i s, kfree ra (kfree la heap))
merge a i s l r heap = (split a i s l r, heap)

-- `_buddy_free`
unfoldable pub free_node : Node → ℕ → List Chunk → Reply
unfolding merge
free_node (free a i s) idx heap = (minus_one, free a i s, heap)
free_node (alloc a i s) idx heap =
    if i == idx then (0, free a i s, heap) else (minus_one, alloc a i s, heap)
free_node (split a i s l r) idx heap =
    let (rl, l', h) = free_node l idx heap in
    let (rr, r', h') = free_node r idx h in
    let (n, h'') = merge a i s l' r' h' in (if rl == 0 || rr == 0 then 0 else minus_one, n, h'')

-- `_buddy_size`. The test `rt < 0` is one of an unsigned number.
unfoldable pub size_node : Node → ℕ → ℕ
size_node (free a i s) idx = minus_one
size_node (alloc a i s) idx =
    if leb i idx
    then (if ltb idx (add64 i s) then (add64 i s + 2 ^ 64 - idx) % 2 ^ 64 else minus_one)
    else minus_one
size_node (split a i s l r) idx =
    let left = size_node l idx in let right = size_node r idx in if ltb right 0 then left else right

-- `_buddy_kill`
unfoldable pub kill_node : Node → List Chunk → List Chunk
kill_node (free a i s) heap = kfree a heap
kill_node (alloc a i s) heap = kfree a heap
kill_node (split a i s l r) heap = kfree a (kill_node r (kill_node l heap))

-- `buddy_alloc`: a node of size s splits fewer than s + 1 times.
unfoldable pub buddy_alloc : Node → ℕ → List Chunk → Outcome Reply
buddy_alloc head size heap = alloc_node (node_size head + 1) head size heap

unfoldable pub buddy_free : Node → ℕ → List Chunk → Reply
buddy_free head idx heap = free_node head idx heap

unfoldable pub buddy_size : Node → ℕ → ℕ
buddy_size head idx = size_node head idx

unfoldable pub buddy_kill : Node → List Chunk → List Chunk
buddy_kill head heap = kill_node head heap

-- `buddy_pool` and `buddy_head`, as `buddy_init` leaves them. A null head has no node.
pub data Pool : Type 0 where
  unset : Pool
  headless : ℕ → Pool
  ready : ℕ → Node → Pool

unfoldable pub buddy_init : ℕ → List Chunk → Outcome (ℕ × Pool × List Chunk)
buddy_init size heap = kmalloc size heap >>= λ p.
    if p.0 == 0
    then done (minus_one, unset, p.1)
    else (kmalloc sizeof_node p.1 >>= λ n.
        if n.0 == 0
        then done (minus_one, headless p.0, n.1)
        else done (0, ready p.0 (free n.0 0 size), n.1))
