-- ===== src/Memory/Buddy/Shape.antt =====
-- The shape of the tree: a node's halves divide its range, and no split has two FREE halves.
use so_realtime.Prelude.{
  ℕ, ◌+◌, ◌/◌, ◌≤◌, ◌<◌, ◌≡◌, ◌⊎◌, refl, List, [], ◌∷◌, ◌++◌, arith, minus_one,
}
use so_realtime.Memory.Chunks.{Chunk}
use so_realtime.Memory.Buddy.{Node, free, alloc, split, address, merge, free_node}

-- The node covers the `n` bytes from index `k` on.
abbrev pub Covers : ℕ → ℕ → Node → Type 0
Covers k n (free a i s) = (i ≡ k) × (s ≡ n) × (0 < n)
Covers k n (alloc a i s) = (i ≡ k) × (s ≡ n) × (0 < n)
Covers k n (split a i s l r) =
    (i ≡ k) × (s ≡ n) × (0 < n) × Covers k (n / 2) l × Covers (k + n / 2) (n / 2) r

abbrev pub IsFree : Node → Type 0
IsFree (free a i s) = Unit
IsFree (alloc a i s) = ⊥
IsFree (split a i s l r) = ⊥

-- `_buddy_free` leaves no split with two FREE halves.
abbrev pub Coalesced : Node → Type 0
Coalesced (free a i s) = Unit
Coalesced (alloc a i s) = Unit
Coalesced (split a i s l r) = (IsFree l → IsFree r → ⊥) × Coalesced l × Coalesced r

-- The blocks in use, as (index, size), in the order of their indices.
abbrev pub allocated : Node → List (ℕ × ℕ)
allocated (free a i s) = []
allocated (alloc a i s) = (i, s) ∷ []
allocated (split a i s l r) = allocated l ++ allocated r

-- Every FREE node is smaller than `size`.
abbrev pub NoBlock : ℕ → Node → Type 0
NoBlock size (free a i s) = s < size
NoBlock size (alloc a i s) = Unit
NoBlock size (split a i s l r) = NoBlock size l × NoBlock size r

merge-eq-split :
    (a i s : ℕ) (l r : Node) (heap : List Chunk)
    → (IsFree l → IsFree r → ⊥)
    → merge a i s l r heap ≡ (split a i s l r, heap)
unfolding merge
merge-eq-split a i s (free b j m) (free b' j' m') heap h = absurd (h tt tt)
merge-eq-split a i s (free b j m) (alloc b' j' m') heap h = refl
merge-eq-split a i s (free b j m) (split b' j' m' x y) heap h = refl
merge-eq-split a i s (alloc b j m) r heap h = refl
merge-eq-split a i s (split b j m x y) r heap h = refl

-- A request for an index that lies in no block of the tree changes nothing.
pub free_node_outside :
    (t : Node) (k n idx : ℕ) (heap : List Chunk)
    → Covers k n t
    → Coalesced t
    → (idx < k) ⊎ (k + n ≤ idx)
    → free_node t idx heap ≡ (minus_one, t, heap)
unfolding free_node
free_node_outside (free a i s) k n idx heap c m out = refl
free_node_outside (alloc a i s) k n idx heap c m out = ground arith
free_node_outside (split a i s l r) k n idx heap (ci, cs, cn, cl, cr) (ml, ml', mr) out = rw (
  free_node_outside l k (n / 2) idx heap cl ml' (omega arith),
  free_node_outside r (k + n / 2) (n / 2) idx heap cr mr (omega arith),
  merge-eq-split a i s l r heap ml,
)

-- The tree part of what `free_node` returns at a split.
pub free_node_left :
    (a i s : ℕ) (l r l' : Node) (k n idx : ℕ) (heap : List Chunk)
    → Covers k n r
    → Coalesced r
    → (idx < k) ⊎ (k + n ≤ idx)
    → (IsFree l' → IsFree r → ⊥)
    → ((free_node l idx heap).0 ≡ 0) × ((free_node l idx heap).1 ≡ l')
    → ((free_node (split a i s l r) idx heap).0 ≡ 0)
      × ((free_node (split a i s l r) idx heap).1 ≡ split a i s l' r)
unfolding free_node
free_node_left a i s l r l' k n idx heap c m out apart (e, e') =
    rw
      (
        free_node_outside r k n idx (free_node l idx heap).2 c m out,
        e,
        e',
        merge-eq-split a i s l' r (free_node l idx heap).2 apart,
      )
      (refl, refl)

pub free_node_right :
    (a i s : ℕ) (l r r' : Node) (k n idx : ℕ) (heap : List Chunk)
    → Covers k n l
    → Coalesced l
    → (idx < k) ⊎ (k + n ≤ idx)
    → (IsFree l → IsFree r' → ⊥)
    → ((free_node r idx heap).0 ≡ 0) × ((free_node r idx heap).1 ≡ r')
    → ((free_node (split a i s l r) idx heap).0 ≡ 0)
      × ((free_node (split a i s l r) idx heap).1 ≡ split a i s l r')
unfolding free_node
free_node_right a i s l r r' k n idx heap c m out apart (e, e') =
    rw
      (
        free_node_outside l k n idx heap c m out,
        e,
        e',
        merge-eq-split a i s l r' (free_node r idx heap).2 apart,
      )
      (refl, refl)

append-eq-nil {ℓ} : {A : Type ℓ} (xs ys : List A) → xs ++ ys ≡ [] → (xs ≡ []) × (ys ≡ [])
append-eq-nil [] ys e = (refl, e)
append-eq-nil (x ∷ xs) ys e = cc

-- A tree with no block in use is one FREE node.
pub allocated-eq-nil :
    (t : Node) (k n : ℕ) → Covers k n t → Coalesced t → allocated t ≡ [] → t ≡ free (address t) k n
allocated-eq-nil (free a i s) k n (ci, cs, cn) m e = rw (ci, cs)
allocated-eq-nil (alloc a i s) k n c m e = cc
allocated-eq-nil (split a i s l r) k n (ci, cs, cn, cl, cr) (ml, ml', mr) e =
    let (el, er) = append-eq-nil (allocated l) (allocated r) e in
    absurd (
      ml (rw (allocated-eq-nil l k (n / 2) cl ml' el) tt)
        (rw (allocated-eq-nil r (k + n / 2) (n / 2) cr mr er) tt))
