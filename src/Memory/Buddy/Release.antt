-- ===== src/Memory/Buddy/Release.antt =====
-- What `_buddy_free` does to the blocks in use, at any index.
use so_realtime.Prelude.{
  ℕ, ◌+◌, ◌/◌, ◌≤◌, ◌<◌, ◌≡◌, refl, List, [], ◌∷◌, ◌++◌, arith, minus_one, true, false,
  if◌then◌else◌, ◌||◌,
}
use so_realtime.Memory.Chunks.{Chunk}
use so_realtime.Memory.Chunks.Blocks.{is_used, erase_block}
use so_realtime.Memory.Buddy.{Node, free, alloc, split, merge, free_node}
use so_realtime.Memory.Buddy.Shape.{Covers, Coalesced, allocated}

is_used-append :
    (a : ℕ) (xs ys : List (ℕ × ℕ)) → is_used a (xs ++ ys) ≡ is_used a xs || is_used a ys
unfolding is_used
is_used-append a [] ys = refl
is_used-append a ((b, m) ∷ xs) ys = ground (arith, is_used-append a xs ys)

erase_block-append :
    (a : ℕ) (xs ys : List (ℕ × ℕ))
    → erase_block a (xs ++ ys)
      ≡ (if is_used a xs then erase_block a xs ++ ys else xs ++ erase_block a ys)
unfolding is_used erase_block
erase_block-append a [] ys = refl
erase_block-append a ((b, m) ∷ xs) ys = ground (arith, erase_block-append a xs ys)

erase_block-unused : (a : ℕ) (xs : List (ℕ × ℕ)) → is_used a xs ≡ false → erase_block a xs ≡ xs
unfolding is_used erase_block
erase_block-unused a [] h = refl
erase_block-unused a ((b, m) ∷ xs) h = ground (arith, erase_block-unused a xs)

allocated_bounds :
    (t : Node) (k n a : ℕ) → Covers k n t → is_used a (allocated t) ≡ true → (k ≤ a) × (a < k + n)
unfolding is_used
allocated_bounds (free b i s) k n a c h = cc
allocated_bounds (alloc b i s) k n a c h = ground arith
allocated_bounds (split b i s l r) k n a (ci, cs, cn, cl, cr) h = ground (
  arith,
  is_used-append a (allocated l) (allocated r),
  allocated_bounds l k (n / 2) a cl,
  allocated_bounds r (k + n / 2) (n / 2) a cr,
)

allocated-merge :
    (a i s : ℕ) (l r : Node) (heap : List Chunk)
    → allocated (merge a i s l r heap).0 ≡ allocated l ++ allocated r
unfolding merge
allocated-merge a i s (free b j m) (free b' j' m') heap = refl
allocated-merge a i s (free b j m) (alloc b' j' m') heap = refl
allocated-merge a i s (free b j m) (split b' j' m' x y) heap = refl
allocated-merge a i s (alloc b j m) r heap = refl
allocated-merge a i s (split b j m x y) r heap = refl

merge-Covers :
    (a k n : ℕ) (l r : Node) (heap : List Chunk)
    → 0 < n
    → Covers k (n / 2) l
    → Covers (k + n / 2) (n / 2) r
    → Covers k n (merge a k n l r heap).0
unfolding merge
merge-Covers a k n (free b j m) (free b' j' m') heap h cl cr = (refl, refl, h)
merge-Covers a k n (free b j m) (alloc b' j' m') heap h cl cr = (refl, refl, h, cl, cr)
merge-Covers a k n (free b j m) (split b' j' m' x y) heap h cl cr = (refl, refl, h, cl, cr)
merge-Covers a k n (alloc b j m) r heap h cl cr = (refl, refl, h, cl, cr)
merge-Covers a k n (split b j m x y) r heap h cl cr = (refl, refl, h, cl, cr)

merge-Coalesced :
    (a i s : ℕ) (l r : Node) (heap : List Chunk)
    → Coalesced l
    → Coalesced r
    → Coalesced (merge a i s l r heap).0
unfolding merge
merge-Coalesced a i s (free b j m) (free b' j' m') heap ml mr = tt
merge-Coalesced a i s (free b j m) (alloc b' j' m') heap ml mr = ((λ e e'. e'), ml, mr)
merge-Coalesced a i s (free b j m) (split b' j' m' x y) heap ml mr = ((λ e e'. e'), ml, mr)
merge-Coalesced a i s (alloc b j m) r heap ml mr = ((λ e _. e), ml, mr)
merge-Coalesced a i s (split b j m x y) r heap ml mr = ((λ e _. e), ml, mr)

-- The shape after a release, at any index.
pub free_node-Covers :
    (t : Node) (k n a : ℕ) (heap : List Chunk) → Covers k n t → Covers k n (free_node t a heap).1
unfolding free_node
free_node-Covers (free b i s) k n a heap c = c
free_node-Covers (alloc b i s) k n a heap c = ground arith
free_node-Covers (split b i s l r) k n a heap (ci, cs, cn, cl, cr) =
    rw (ci, cs)
      (merge-Covers b k n _ _ _ cn (free_node-Covers l k (n / 2) a heap cl)
        (free_node-Covers r (k + n / 2) (n / 2) a (free_node l a heap).2 cr))

pub free_node-Coalesced :
    (t : Node) (a : ℕ) (heap : List Chunk) → Coalesced t → Coalesced (free_node t a heap).1
unfolding free_node
free_node-Coalesced (free b i s) a heap m = tt
free_node-Coalesced (alloc b i s) a heap m = ground arith
free_node-Coalesced (split b i s l r) a heap (m, ml, mr) =
    merge-Coalesced b i s _ _ _ (free_node-Coalesced l a heap ml)
      (free_node-Coalesced r a (free_node l a heap).2 mr)

-- The result and the blocks in use after a release, at any index.
pub free_node-allocated :
    (t : Node) (k n a : ℕ) (heap : List Chunk)
    → Covers k n t
    → ((free_node t a heap).0 ≡ (if is_used a (allocated t) then 0 else minus_one))
      × (allocated (free_node t a heap).1 ≡ erase_block a (allocated t))
unfolding free_node is_used erase_block
free_node-allocated (free b i s) k n a heap c = (refl, refl)
free_node-allocated (alloc b i s) k n a heap c = ground arith
free_node-allocated (split b i s l r) k n a heap (ci, cs, cn, cl, cr) =
    let (el, al) = free_node-allocated l k (n / 2) a heap cl in
    let (er, ar) = free_node-allocated r (k + n / 2) (n / 2) a (free_node l a heap).2 cr in
    (
      rw (el, er, is_used-append) (ground arith),
      rw (allocated-merge, al, ar, erase_block-append)
          (apart a (allocated l) (allocated r) (allocated_bounds l k (n / 2) a cl)
            (allocated_bounds r (k + n / 2) (n / 2) a cr)),
    )
  where
    apart :
        (a : ℕ) (xs ys : List (ℕ × ℕ))
        → (is_used a xs ≡ true → (k ≤ a) × (a < k + n / 2))
        → (is_used a ys ≡ true → (k + n / 2 ≤ a) × (a < k + n / 2 + n / 2))
        → erase_block a xs ++ erase_block a ys
          ≡ (if is_used a xs then erase_block a xs ++ ys else xs ++ erase_block a ys)
    apart a xs ys hx hy = ground (arith, erase_block-unused a xs, erase_block-unused a ys)
