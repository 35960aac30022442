-- ===== src/Memory/Buddy/Size.antt =====
-- What `_buddy_size` answers: it only ever looks at the last leaf of the tree.
use so_realtime.Prelude.{
  ℕ, ◌+◌, ◌-◌, ◌/◌, ◌^◌, ◌<◌, ◌≡◌, refl, arith, minus_one, ltb, leb, if◌then◌else◌, ◌&&◌,
}
use so_realtime.Memory.Buddy.{Node, free, alloc, split, size_node, buddy_size}
use so_realtime.Memory.Buddy.Shape.{Covers}

abbrev pub last_leaf : Node → Node
last_leaf (free a i s) = free a i s
last_leaf (alloc a i s) = alloc a i s
last_leaf (split a i s l r) = last_leaf r

-- The bytes from an index to the end of an allocated leaf around it.
abbrev pub rest_of_leaf : Node → ℕ → ℕ
rest_of_leaf (free a i s) idx = minus_one
rest_of_leaf (alloc a i s) idx = if leb i idx && ltb idx (i + s) then i + s - idx else minus_one
rest_of_leaf (split a i s l r) idx = minus_one

-- On a tree over a range that ends below 2^63, `buddy_size` answers the number of bytes from the index
-- to the end of the last leaf of the tree, if that leaf is allocated and the index lies in it, and -1 at
-- any other index, also at one in an allocated block that is not the last leaf.
pub buddy_size-eq-last_leaf :
    (t : Node) (k n idx : ℕ)
    → Covers k n t
    → k + n < 2 ^ 63
    → buddy_size t idx ≡ rest_of_leaf (last_leaf t) idx
unfolding buddy_size size_node
buddy_size-eq-last_leaf (free a i s) k n idx c h = refl
buddy_size-eq-last_leaf (alloc a i s) k n idx c h = ground arith
buddy_size-eq-last_leaf (split a i s l r) k n idx (ci, cs, cn, cl, cr) h =
    ground (arith, buddy_size-eq-last_leaf r (k + n / 2) (n / 2) idx cr (omega arith))
