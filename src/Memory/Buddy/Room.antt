-- ===== src/Memory/Buddy/Room.antt =====
-- With room for the nodes in the kernel's heap `_buddy_alloc` does not fault.
use so_realtime.Prelude.{
  ℕ, zero, suc, ◌+◌, ◌*◌, ◌/◌, ◌^◌, ◌≤◌, ◌<◌, ◌≡◌, refl, arith, List, [], ◌∷◌, ◌++◌, OnSome,
  Option-cases, Bool-cases, inl, inr, ◌==◌, ltb, leb, lt→ltb, false, Ensures, Ensures-map,
  Ensures-bind, Ensures-of_both, Ensures-both, some,
}
use native.Mathlib.Nat.{pow-suc}
use so_realtime.Memory.Buddy.Shape.{Covers, Coalesced}
use so_realtime.Memory.Buddy.Grant.{Answered}
use so_realtime.Memory.Buddy.Alloc.{carve_lem, Answered-left, Answered-right, Granted-nonneg}
use so_realtime.Memory.Chunks.{Chunk, last_chunk, allocate, take_first_fit, chunk_behind}
use so_realtime.Memory.Chunks.Spacing.{last_chunk-eq-some}
use so_realtime.Memory.Kmem.{memory_start, memory_end, kmalloc}
use so_realtime.Memory.Kmem.Heap.{IsKernelHeap, kmalloc_lem}
use so_realtime.Memory.Chunks.Blocks.{Refused}
use so_realtime.Memory.Chunks.Heap.{Placed}
use so_realtime.Memory.Buddy.{Node, free, alloc, split, Reply, sizeof_node, carve, alloc_node}

-- Where the last chunk ends.
abbrev pub end_of : ℕ → List Chunk → ℕ
end_of e [] = e
end_of e (c ∷ cs) = end_of (c.start + c.size) cs

-- A node and the headers of its chunk.
abbrev pub node_footprint : ℕ
node_footprint = 80

-- Behind the last chunk there is room for `n` nodes.
pub record HasRoom (n : ℕ) (heap : List Chunk) : Type 0 where
  pub valid : IsKernelHeap heap
  pub room : end_of 0 heap + node_footprint * n ≤ memory_end

end_of_mono : (a b : ℕ) (cs : List Chunk) → a ≤ b → end_of a cs ≤ end_of b cs
end_of_mono a b [] h = h
end_of_mono a b (c ∷ cs) h = omega arith

end_of-append : (e : ℕ) (cs : List Chunk) (d : Chunk) → end_of e (cs ++ (d ∷ [])) ≡ d.start + d.size
end_of-append e [] d = refl
end_of-append e (c ∷ cs) d = end_of-append (c.start + c.size) cs d

end_of-last_chunk :
    (e : ℕ) (cs : List Chunk) (p : Chunk) → last_chunk cs ≡ some p → end_of e cs ≡ p.start + p.size
unfolding last_chunk
end_of-last_chunk e [] p h = cc
end_of-last_chunk e (c ∷ []) p h = ground arith
end_of-last_chunk e (c ∷ d ∷ cs) p h = end_of-last_chunk (c.start + c.size) (d ∷ cs) p h

end_of-take_first_fit :
    (n e : ℕ) (cs : List Chunk)
    → OnSome (λ (r : ℕ × List Chunk). end_of e r.1 ≤ end_of e cs) (take_first_fit n cs)
unfolding take_first_fit
end_of-take_first_fit n e [] = tt
end_of-take_first_fit n e (c ∷ cs) = ground (
  arith,
  end_of-take_first_fit n (c.start + c.size) cs,
  end_of_mono (c.start + n) (c.start + c.size) cs,
)

-- The heap grows by a node's footprint at most.
kmalloc-end_of :
    (c : Chunk) (cs : List Chunk)
    → end_of 0 (c ∷ cs) + node_footprint ≤ memory_end
    → Ensures
        (λ (r : ℕ × List Chunk). end_of 0 r.1 ≤ end_of 0 (c ∷ cs) + node_footprint)
        (kmalloc sizeof_node (c ∷ cs))
unfolding kmalloc allocate chunk_behind
kmalloc-end_of c cs h = elim (Option-cases (take_first_fit sizeof_node (c ∷ cs))) [
  | inl e ↦
      let (p, q) = last_chunk-eq-some c cs in
      ground (
        arith,
        end_of-last_chunk 0 (c ∷ cs) p q,
        end_of-append 0 (c ∷ cs) (chunk_behind p sizeof_node),
      )
  | inr (r, e) ↦ ground (arith, end_of-take_first_fit sizeof_node 0 (c ∷ cs))
]

NoRoom :
    (n : ℕ) (heap : List Chunk) (r : ℕ × List Chunk)
    → HasRoom (suc n) heap
    → Refused memory_end sizeof_node heap r
    → ⊥
NoRoom n [] r h refused = absurd (omega (arith, h.valid))
NoRoom n (c ∷ cs) r h refused =
    let (p, q) = last_chunk-eq-some c cs in ground (arith, end_of-last_chunk 0 (c ∷ cs) p q, h.room)

-- What an allocation of a node leaves.
abbrev NodeTaken : ℕ → ℕ × List Chunk → Type 0
NodeTaken n r = HasRoom n r.1 × ((r.0 == 0) ≡ false)

node_taken :
    (n : ℕ) (heap : List Chunk) (r : ℕ × List Chunk)
    → HasRoom (suc n) heap
    → end_of 0 r.1 ≤ end_of 0 heap + node_footprint
    → IsKernelHeap r.1
    → Placed memory_end memory_start sizeof_node heap r
    → NodeTaken n r
node_taken n heap r h grown v (inl refused) = absurd (NoRoom n heap r h refused)
node_taken n heap r h grown v (inr (served, apart)) =
    (record { valid = v; room = omega (arith, h.room) }, ground (arith, served.0))

kmalloc-NodeTaken :
    (n : ℕ) (heap : List Chunk)
    → HasRoom (suc n) heap
    → Ensures (NodeTaken n) (kmalloc sizeof_node heap)
kmalloc-NodeTaken n [] h = absurd (omega (arith, h.valid))
kmalloc-NodeTaken n (c ∷ cs) h =
    Ensures-map
      (λ r.
        (end_of 0 r.1 ≤ end_of 0 (c ∷ cs) + node_footprint)
        × (IsKernelHeap r.1 × Placed memory_end memory_start sizeof_node (c ∷ cs) r))
      (NodeTaken n) (kmalloc sizeof_node (c ∷ cs))
      (λ r k. node_taken n (c ∷ cs) r h k.0 k.1.0 k.1.1)
      (Ensures-both (λ r. end_of 0 r.1 ≤ end_of 0 (c ∷ cs) + node_footprint)
        (λ r. IsKernelHeap r.1 × Placed memory_end memory_start sizeof_node (c ∷ cs) r) _
        (kmalloc-end_of c cs (omega (arith, h.room)))
        (kmalloc_lem sizeof_node (c ∷ cs) (omega arith) h.valid))

-- With room for two nodes for each halving `carve` returns.
carve-returns :
    (d fuel a k s size : ℕ) (heap : List Chunk)
    → 0 < size
    → s < 2 ^ d
    → d < fuel
    → HasRoom (2 * d) heap
    → Ensures (λ (o : Reply). Unit {0}) (carve fuel a k s size heap)
unfolding carve
carve-returns d zero a k s size heap pos h enough room = absurd (omega arith)
carve-returns zero (suc fuel) a k s size heap pos h enough room =
    rw (lt→ltb s size (omega arith)) tt
carve-returns (suc d) (suc fuel) a k s size heap pos h enough room =
    elim (Bool-cases (ltb s size)) [
      | inl tight ↦ rw tight tt
      | inr roomy ↦ elim (Bool-cases (leb size (s / 2))) [
        | inr whole ↦ rw (roomy, whole) tt
        | inl half ↦
            rw (roomy, half)
              (Ensures-bind (NodeTaken (suc (2 * d))) (λ (o : Reply). Unit {0})
                (kmalloc sizeof_node heap) _
                (λ l hl.
                  Ensures-bind (NodeTaken (2 * d)) (λ (o : Reply). Unit {0})
                    (kmalloc sizeof_node l.1) _
                    (λ r hr.
                      rw (hl.1, hr.1)
                        (Ensures-bind (λ (o : Reply). Unit {0}) (λ (o : Reply). Unit {0})
                          (carve fuel l.0 k (s / 2) size r.1) _ (λ o _. tt)
                          (carve-returns d fuel l.0 k (s / 2) size r.1 pos
                            (omega (arith, pow-suc 2 d)) (omega arith) hr.0)))
                    (kmalloc-NodeTaken (2 * d) l.1 hl.0))
                (kmalloc-NodeTaken (suc (2 * d)) heap (rw twice at room)))
      ]
    ]
  where
    twice : 2 * suc d ≡ suc (suc (2 * d))
    twice = omega arith

-- `_buddy_alloc` returns, on a tree that covers its range and with room for two nodes for each
-- halving of the whole range.
pub alloc_node-Answered :
    (d fuel : ℕ) (t : Node) (k n size : ℕ) (heap : List Chunk)
    → 0 < size
    → n < fuel
    → k + n < 2 ^ 63
    → Covers k n t
    → Coalesced t
    → n < 2 ^ d
    → d < fuel
    → HasRoom (2 * d) heap
    → Ensures (Answered k n size t heap) (alloc_node fuel t size heap)
unfolding alloc_node
alloc_node-Answered d fuel (free a i s) k n size heap pos enough small (ci, cs, cn) m hd hf room =
    rw (ci, cs)
      (Ensures-of_both (Answered k n size (free a k n) heap) (carve fuel a k n size heap)
        (carve_lem fuel a k n size heap pos cn enough small)
        (carve-returns d fuel a k n size heap pos hd hf room))
alloc_node-Answered d fuel (alloc a i s) k n size heap pos enough small c m hd hf room =
    (c, tt, inl (refl, refl, refl, tt))
alloc_node-Answered d fuel (split a i s l r) k n size heap pos enough small (ci, cs, cn, cl, cr) m
      hd hf room =
    rw (ci, cs)
      (Ensures-bind (Answered k (n / 2) size l heap) (Answered k n size (split a k n l r) heap)
        (alloc_node fuel l size heap) _
        (λ o h. elim h.2 [
          | inl denied ↦
              rw (denied.0, denied.1, denied.2)
                (Ensures-bind (Answered (k + n / 2) (n / 2) size r heap)
                  (Answered k n size (split a k n l r) heap) (alloc_node fuel r size heap) _
                  (λ q hq. Answered-right a k n size l r heap q pos cn cl cr m denied.3 hq)
                  (alloc_node-Answered d fuel r (k + n / 2) (n / 2) size heap pos (omega arith)
                    (omega arith) cr m.2 (omega arith) hf room))
          | inr g ↦
              rw (Granted-nonneg k (n / 2) size l o (omega arith) g)
                (Answered-left a k n size l r heap o pos cn cl cr m h.0 h.1 g)
        ])
        (alloc_node-Answered d fuel l k (n / 2) size heap pos (omega arith) (omega arith) cl m.1
          (omega arith) hf room))
