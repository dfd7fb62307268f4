-- ===== src/Queue/Order.antt =====
-- The order that `Up` and `Push` work with.
use mathlib.Core.List.Perm
use mathlib.Core.List.{not-mem-nil, forall_mem-cons}
use native.Mathlib.Bridge.{le_prop}
use native.Mathlib.Numerals.{sub-one}
use qos_planner.Common.{
  ℕ, zero, suc, ◌-◌, ◌/◌, ◌≤◌, ◌<◌, ◌≡◌, ◌≢◌, inl, inr, List, [], ◌∷◌, ◌++◌, Option, some, Perm,
  arith, length, ltb, Mem, ◌>>=◌, ◌==◌, Bool-cases, Returns, returns, Returns-bind, Returns-map,
  length-append, get_elem?-append, concat-perm,
}
use qos_planner.Queue.{WaitingItem, Heap, up, push, peek}
use qos_planner.Queue.Access.{key, time_at-key, Swapped, swap-Returns}

abbrev pub parent : ℕ → ℕ
parent c = (c - 1) / 2

-- No entry is later than its parent.
abbrev pub IsMaxHeap : Heap → Type 0
IsMaxHeap q = (c : ℕ) → 0 < c → c < length q → key q c ≤ key q (parent c)

-- In order but for the edge above `pos`.
record UpInv (q : Heap) (pos : ℕ) : Type 0 where
  inside : pos < length q
  edges : (c : ℕ) → 0 < c → c < length q → c ≢ pos → key q c ≤ key q (parent c)
  bridged : (c : ℕ) → 0 < c → c < length q → parent c ≡ pos → 0 < pos → key q c ≤ key q (parent pos)

module _ (q : Heap) (pos : ℕ) (v : UpInv q pos) (above : 0 < pos) where
  settled : key q pos ≤ key q (parent pos) → IsMaxHeap q
  settled h c p s = grind (arith, v.edges)

  risen :
      key q (parent pos) < key q pos
      → (r : Heap) → Swapped q (parent pos) pos r
      → UpInv r (parent pos)
  risen h r w = record {
    inside = ground (arith, w.size, v.inside);
    edges = λ c p s n. ground (arith, w.size, w.keys c, w.keys (parent c), v.edges c, v.bridged c);
    bridged = λ c p s e n.
        ground
          (arith, w.size, w.keys c, w.keys (parent (parent pos)), v.edges c, v.edges (parent pos));
  }

up_restores :
    (fuel : ℕ) (q : Heap) (pos : ℕ)
    → pos < fuel
    → UpInv q pos
    → Returns (λ r. IsMaxHeap r × Perm r q) (up fuel q pos)
unfolding up
up_restores zero q pos f v = absurd (omega arith)
up_restores (suc fuel) q pos f v = elim (Bool-cases (pos == 0)) [
  | inl root ↦ rw root (returns ((λ c p s. v.edges c p s (ground arith)), Perm.rfl))
  | inr inner ↦
      let above : 0 < pos = ground arith in
      rw (inner, time_at-key q (parent pos) (omega (arith, v.inside)), time_at-key q pos v.inside)
        (elim (Bool-cases (ltb (key q (parent pos)) (key q pos))) [
          | inl less ↦ rw less (
              Returns-bind (swap-Returns q (parent pos) pos (omega (arith, v.inside)) v.inside)
                λ r w.
                  Returns-map
                    (up_restores fuel r (parent pos) (omega arith)
                      (risen q pos v above (ground arith) r w))
                    λ s (heap, same). (heap, Perm.trans same w.same))
          | inr more ↦ rw more (returns (settled q pos v above (ground arith), Perm.rfl))
        ])
]

push-start : (q : Heap) (x : WaitingItem) → IsMaxHeap q → UpInv (q ++ x ∷ []) (length q)
unfolding key
push-start q x heap = record {
  inside = omega (arith, length-append q (x ∷ []));
  edges = λ c p s n. ground (
    arith,
    length-append q (x ∷ []),
    heap c,
    get_elem?-append q (x ∷ []) c,
    get_elem?-append q (x ∷ []) (parent c),
  );
  bridged = λ c p s e n. omega (arith, length-append q (x ∷ []));
}

-- Push adds exactly the item, and keeps a heap in which no item is later than its parent.
pub push_correct :
    (q : Heap) (x : WaitingItem)
    → IsMaxHeap q
    → Returns (λ r. IsMaxHeap r × Perm r (x ∷ q)) (push q x)
unfolding push
push_correct q x heap =
    let size : length (q ++ x ∷ []) ≡ suc (length q) = omega (arith, length-append q (x ∷ [])) in
    rw (size, sub-one (suc (length q)))
      (Returns-map
        (up_restores (suc (length q)) (q ++ x ∷ []) (length q) (omega arith) (push-start q x heap))
        λ r (h, same). (h, Perm.trans same (concat-perm q x)))

root_latest_below :
    (k : ℕ) (q : Heap) (i : ℕ) → IsMaxHeap q → i < k → i < length q → key q i ≤ key q 0
root_latest_below zero q i h f p = absurd (omega arith)
root_latest_below (suc k) q i h f p = ground (arith, h i, root_latest_below k q (parent i) h)

-- In such a heap no item is later than the root.
pub root_latest : (q : Heap) (i : ℕ) → IsMaxHeap q → i < length q → key q i ≤ key q 0
root_latest q i h p = root_latest_below (suc i) q i h (omega arith) p

le_of_mem :
    (q : Heap) (b : ℕ)
    → ((i : ℕ) → i < length q → key q i ≤ b)
    → (x : WaitingItem) → Mem x q
    → x.time_of_event ≤ b
unfolding key
le_of_mem [] b h = λ x m. absurd (not-mem-nil m)
le_of_mem (y ∷ q) b h =
    (forall_mem-cons λ t. le_prop).1
      (h 0 (omega arith), le_of_mem q b λ i p. h (suc i) (omega arith))

pub peek_latest :
    (q : Heap) (top x : WaitingItem)
    → IsMaxHeap q
    → peek q ≡ some top
    → Mem x q
    → x.time_of_event ≤ top.time_of_event
unfolding peek key
peek_latest [] top x heap e m = absurd (not-mem-nil m)
peek_latest (y ∷ q) top x heap e m =
    let bound = le_of_mem (y ∷ q) (key (y ∷ q) 0) (λ i. root_latest (y ∷ q) i heap) x m in
    ground arith

-- A sequence of calls of `Push` on an empty queue.
unfoldable pub push_all : List WaitingItem → Option Heap
push_all [] = some []
push_all (x ∷ xs) = push_all xs >>= λ q. push q x

pub push_all_correct :
    (xs : List WaitingItem) → Returns (λ q. IsMaxHeap q × Perm q xs) (push_all xs)
unfolding push_all
push_all_correct [] = returns ((λ c p s. absurd (omega arith)), Perm.rfl)
push_all_correct (x ∷ xs) = Returns-bind (push_all_correct xs) λ q (heap, same).
    Returns-map (push_correct q x heap) λ r (h, s). (h, Perm.trans s (Perm.cons x same))

-- Pushes never fail; a queue that has only been pushed to holds exactly the items pushed, and none
-- of them is later than the one that Peek returns.
pub push_all-peek_latest :
    (xs : List WaitingItem)
    → Returns
        (λ q.
          Perm q xs
          × ((top x : WaitingItem)
              → peek q ≡ some top
              → Mem x xs
              → x.time_of_event ≤ top.time_of_event))
        (push_all xs)
push_all-peek_latest xs =
    Returns-map (push_all_correct xs)
      λ q (heap, same). (same, λ top x e m. peek_latest q top x heap e ((Perm.mem_iff same).1 m))
