-- ===== src/Memory/Buddy/Alloc.antt =====
-- What `_buddy_alloc` comes to on a tree that covers its range: it ends, and grants or denies.
use so_realtime.Prelude.{
  ℕ, zero, suc, ◌+◌, ◌/◌, ◌^◌, ◌≤◌, ◌<◌, ◌≡◌, refl, inl, inr, List, arith, Bool-cases, ltb, leb,
  lt→ltb, nonneg64, true, done, fault, ◌>>=◌, add64, if◌then◌else◌, ◌==◌, ◌||◌, UnlessFault,
  UnlessFault-bind,
}
use so_realtime.Memory.Chunks.{Chunk, allocate}
use so_realtime.Memory.Kmem.{kmalloc}
use so_realtime.Memory.Buddy.{Node, free, alloc, split, Reply, sizeof_node, carve, alloc_node}
use so_realtime.Memory.Buddy.Shape.{Covers, Coalesced, NoBlock}
use so_realtime.Memory.Buddy.Grant.{
  Granted, Answered, Granted-whole, Granted-half, Granted-left, Granted-right,
}

kmalloc-ends :
    (size : ℕ) (heap : List Chunk)
    → UnlessFault (λ (r : ℕ × List Chunk). Unit {0}) (kmalloc size heap)
unfolding kmalloc allocate
kmalloc-ends size heap = ground arith

Answered-half :
    (a b c k s size : ℕ) (before heap : List Chunk) (o : Reply)
    → 0 < s
    → size ≤ s / 2
    → Answered k (s / 2) size (free b k (s / 2)) before o
    → 0 < s / 2
    → Answered k s size (free a k s) heap (o.0, split a k s o.1 (free c (k + s / 2) (s / 2)), o.2)
Answered-half a b c k s size before heap o pos h (co, m, inl (e, e', e'', none_fits)) pos' =
    absurd (omega arith)
Answered-half a b c k s size before heap o pos h (co, m, inr g) pos' = (
  (refl, refl, pos, co, (refl, refl, pos')),
  ((λ e. absurd (g.taken e)), m, tt),
  inr (Granted-half a b c k s size o g),
)

-- What is left of a round once both nodes are asked for.
nodes :
    (a k s size fuel : ℕ) (heap : List Chunk) (l r : ℕ × List Chunk)
    → 0 < s
    → k + s < 2 ^ 63
    → size ≤ s / 2
    → 0 < s / 2
    → UnlessFault
        (Answered k (s / 2) size (free l.0 k (s / 2)) r.1)
        (carve fuel l.0 k (s / 2) size r.1)
    → UnlessFault (Answered k s size (free a k s) heap) (
        if l.0 == 0 || r.0 == 0
        then fault
        else (carve fuel l.0 k (s / 2) size r.1 >>= λ o.
            done (o.0, split a k s o.1 (free r.0 (add64 k (s / 2)) (s / 2)), o.2)))
nodes a k s size fuel heap l r posS small half posH ih =
    let e : add64 k (s / 2) ≡ k + s / 2 = omega arith in
    elim (Bool-cases (l.0 == 0 || r.0 == 0)) [
      | inl null ↦ rw null tt
      | inr ok ↦
          rw (ok, e)
            (UnlessFault-bind (Answered k (s / 2) size (free l.0 k (s / 2)) r.1)
              (Answered k s size (free a k s) heap) _ _
              (λ o h. Answered-half a l.0 r.0 k s size r.1 heap o posS half h posH) ih)
    ]

pub carve_lem :
    (fuel a k s size : ℕ) (heap : List Chunk)
    → 0 < size
    → 0 < s
    → s < fuel
    → k + s < 2 ^ 63
    → UnlessFault (Answered k s size (free a k s) heap) (carve fuel a k s size heap)
unfolding carve
carve_lem zero a k s size heap pos posS enough small = absurd (omega arith)
carve_lem (suc fuel) a k s size heap pos posS enough small = elim (Bool-cases (ltb s size)) [
  | inl tight ↦ rw tight ((refl, refl, posS), tt, inl (refl, refl, refl, ground arith))
  | inr roomy ↦ elim (Bool-cases (leb size (s / 2))) [
    | inr whole ↦
        rw (roomy, whole)
          ((refl, refl, posS), tt, inr (Granted-whole a k s size heap (ground arith)))
    | inl half ↦
        rw (roomy, half)
          (UnlessFault-bind (λ _. Unit) _ _ _
            (λ l _.
              UnlessFault-bind (λ _. Unit) _ _ _
                (λ r _. nodes a k s size fuel heap l r posS small (ground arith) (ground arith) (
                  carve_lem fuel l.0 k (s / 2) size r.1 pos (ground arith) (omega arith)
                    (omega arith)))
                (kmalloc-ends sizeof_node l.1))
            (kmalloc-ends sizeof_node heap))
  ]
]

pub Answered-left :
    (a k n size : ℕ) (l r : Node) (heap : List Chunk) (o : Reply)
    → 0 < size
    → 0 < n
    → Covers k (n / 2) l
    → Covers (k + n / 2) (n / 2) r
    → Coalesced (split a k n l r)
    → Covers k (n / 2) o.1
    → Coalesced o.1
    → Granted k (n / 2) size l o
    → Answered k n size (split a k n l r) heap (o.0, split a k n o.1 r, o.2)
Answered-left a k n size l r heap o pos posn cl cr m co mo g = (
  (refl, refl, posn, co, cr),
  ((λ e _. g.taken e), mo, m.2),
  inr (Granted-left a k n size l r o pos cl cr m g),
)

pub Answered-right :
    (a k n size : ℕ) (l r : Node) (heap : List Chunk) (o : Reply)
    → 0 < size
    → 0 < n
    → Covers k (n / 2) l
    → Covers (k + n / 2) (n / 2) r
    → Coalesced (split a k n l r)
    → NoBlock size l
    → Answered (k + n / 2) (n / 2) size r heap o
    → Answered k n size (split a k n l r) heap (o.0, split a k n l o.1, o.2)
Answered-right a k n size l r heap o pos posn cl cr m none_left
      (co, mo, inl (e, e', e'', none_right)) =
    ((refl, refl, posn, cl, co), rw e' m, inl (e, rw e', e'', (none_left, none_right)))
Answered-right a k n size l r heap o pos posn cl cr m none_left (co, mo, inr g) = (
  (refl, refl, posn, cl, co),
  ((λ _ e. g.taken e), m.1, mo),
  inr (Granted-right a k n size l r o pos cl cr m g),
)

pub Granted-nonneg :
    (k n size : ℕ) (t : Node) (o : Reply)
    → k + n < 2 ^ 63
    → Granted k n size t o
    → nonneg64 o.0 ≡ true
Granted-nonneg k n size t o h g = lt→ltb o.0 (2 ^ 63) (omega (arith, g.high))

pub alloc_node_lem :
    (fuel : ℕ) (t : Node) (k n size : ℕ) (heap : List Chunk)
    → 0 < size
    → n < fuel
    → k + n < 2 ^ 63
    → Covers k n t
    → Coalesced t
    → UnlessFault (Answered k n size t heap) (alloc_node fuel t size heap)
unfolding alloc_node
alloc_node_lem fuel (free a i s) k n size heap pos enough small (ci, cs, cn) m =
    rw (ci, cs) (carve_lem fuel a k n size heap pos cn enough small)
alloc_node_lem fuel (alloc a i s) k n size heap pos enough small c m =
    (c, tt, inl (refl, refl, refl, tt))
alloc_node_lem fuel (split a i s l r) k n size heap pos enough small (ci, cs, cn, cl, cr) m =
    rw (ci, cs)
      (UnlessFault-bind (Answered k (n / 2) size l heap) (Answered k n size (split a k n l r) heap)
        (alloc_node fuel l size heap) _
        (λ o h. elim h.2 [
          | inl denied ↦
              rw (denied.0, denied.1, denied.2)
                (UnlessFault-bind (Answered (k + n / 2) (n / 2) size r heap)
                  (Answered k n size (split a k n l r) heap) (alloc_node fuel r size heap) _
                  (λ q hq. Answered-right a k n size l r heap q pos cn cl cr m denied.3 hq)
                  (alloc_node_lem fuel r (k + n / 2) (n / 2) size heap pos (omega arith)
                    (omega arith) cr m.2))
          | inr g ↦
              rw (Granted-nonneg k (n / 2) size l o (omega arith) g)
                (Answered-left a k n size l r heap o pos cn cl cr m h.0 h.1 g)
        ])
        (alloc_node_lem fuel l k (n / 2) size heap pos (omega arith) (omega arith) cl m.1))
