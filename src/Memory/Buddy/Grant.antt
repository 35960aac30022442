-- ===== src/Memory/Buddy/Grant.antt =====
-- What it means that `_buddy_alloc` grants or denies a request.
use so_realtime.Prelude.{
  ℕ, ◌+◌, ◌/◌, ◌≤◌, ◌<◌, ◌≡◌, ◌⊎◌, refl, inl, inr, List, [], ◌∷◌, ◌++◌, arith, minus_one,
  append-nil, append_assoc, sym,
}
use so_realtime.Memory.Chunks.{Chunk}
use so_realtime.Memory.Buddy.{Node, free, alloc, split, Reply, merge, free_node}
use so_realtime.Memory.Buddy.Shape.{
  Covers, IsFree, Coalesced, allocated, NoBlock, free_node_left, free_node_right,
}

-- `o` grants a block of `size` bytes or more of the tree `t` over `[k, k + n)`: it is one block more
-- among those in use, and to free its index gives back the tree.
pub record Granted (k n size : ℕ) (t : Node) (o : Reply) : Type 0 where
  pub width : ℕ
  pub front : List (ℕ × ℕ)
  pub back : List (ℕ × ℕ)
  pub fits : size ≤ width
  pub low : k ≤ o.0
  pub high : o.0 + width ≤ k + n
  pub before : allocated t ≡ front ++ back
  pub after : allocated o.1 ≡ front ++ ((o.0, width) ∷ back)
  pub taken : IsFree o.1 → ⊥
  pub undone :
      (heap : List Chunk) → ((free_node o.1 o.0 heap).0 ≡ 0) × ((free_node o.1 o.0 heap).1 ≡ t)

-- Nothing is granted, since no FREE node is large enough, and the tree and the kernel's heap stay as
-- they are.
abbrev pub Denied : ℕ → Node → List Chunk → Reply → Type 0
Denied size t heap o = (o.0 ≡ minus_one) × (o.1 ≡ t) × (o.2 ≡ heap) × NoBlock size t

abbrev pub Answered : ℕ → ℕ → ℕ → Node → List Chunk → Reply → Type 0
Answered k n size t heap o =
    Covers k n o.1 × Coalesced o.1 × (Denied size t heap o ⊎ Granted k n size t o)

pub Granted-whole :
    (a k s size : ℕ) (heap : List Chunk)
    → size ≤ s
    → Granted k s size (free a k s) (k, alloc a k s, heap)
unfolding free_node
Granted-whole a k s size heap h = record {
  width = s;
  front = [];
  back = [];
  fits = h;
  low = omega arith;
  high = omega arith;
  before = refl;
  after = refl;
  taken = λ e. e;
  undone = λ h'. ground arith;
}

pub Granted-half :
    (a b c k s size : ℕ) (o : Reply)
    → Granted k (s / 2) size (free b k (s / 2)) o
    → Granted k s size (free a k s) (o.0, split a k s o.1 (free c (k + s / 2) (s / 2)), o.2)
unfolding free_node merge
Granted-half a b c k s size o g = record {
  width = g.width;
  front = g.front;
  back = g.back;
  fits = g.fits;
  low = g.low;
  high = omega arith;
  before = g.before;
  after = rw append-nil g.after;
  taken = λ e. e;
  undone = λ h'. rw ((g.undone h').0, (g.undone h').1) (refl, refl);
}

module _ (a k n size : ℕ) (l r : Node) (o : Reply) (pos : 0 < size) (cl : Covers k (n / 2) l)
    (cr : Covers (k + n / 2) (n / 2) r) (m : Coalesced (split a k n l r)) where
  pub Granted-left :
      Granted k (n / 2) size l o → Granted k n size (split a k n l r) (o.0, split a k n o.1 r, o.2)
  Granted-left g = record {
    width = g.width;
    front = g.front;
    back = g.back ++ allocated r;
    fits = g.fits;
    low = g.low;
    high = omega (arith, g.high);
    before = rw g.before (append_assoc g.front g.back (allocated r));
    after = rw g.after (append_assoc g.front ((o.0, g.width) ∷ g.back) (allocated r));
    taken = λ e. e;
    undone = λ h.
        free_node_left a k n o.1 r l (k + n / 2) (n / 2) o.0 h cr m.2
          (inl (omega (arith, g.high, g.fits))) m.0 (g.undone h);
  }

  pub Granted-right :
      Granted (k + n / 2) (n / 2) size r o
      → Granted k n size (split a k n l r) (o.0, split a k n l o.1, o.2)
  Granted-right g = record {
    width = g.width;
    front = allocated l ++ g.front;
    back = g.back;
    fits = g.fits;
    low = omega (arith, g.low);
    high = omega (arith, g.high);
    before = rw g.before (sym (append_assoc (allocated l) g.front g.back));
    after = rw g.after (sym (append_assoc (allocated l) g.front ((o.0, g.width) ∷ g.back)));
    taken = λ e. e;
    undone = λ h.
        free_node_right a k n l o.1 r k (n / 2) o.0 h cl m.1 (inr (omega (arith, g.low))) m.0
          (g.undone h);
  }
