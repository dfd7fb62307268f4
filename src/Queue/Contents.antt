-- ===== src/Queue/Contents.antt =====
-- The items of the queue under `Push`, `Pop` and `Remove`, in whatever order these stand.
use mathlib.Core.List.Perm
use qos_planner.Common.{
  ℕ, zero, suc, ◌+◌, ◌-◌, ◌*◌, ◌/◌, ◌≤◌, ◌<◌, ◌≡◌, ◌≢◌, ◌⊎◌, refl, inl, inr, [], ◌∷◌, ◌++◌, Option,
  none, some, Perm, arith, length, get_elem?, set, take, ltb, leb, ◌==◌, ◌||◌, if◌then◌else◌, Bool,
  true, false, Bool-cases, ◌>>=◌, Returns, returns, Returns-bind, Returns-map, length-append,
  length-set, length-perm, get_elem?-lt, get_elem?-set, set-perm, take-append_last, concat-perm,
  Str, Str-discrete, lt-of-get_elem?, ℕ_discrete, if_pos, if_neg,
}
use qos_planner.Queue.{WaitingItem, Heap, time_at, swap, up, down, push, pop, remove_loop, remove}
use qos_planner.Queue.Access.{key, time_at-key, swap-Returns}

up-perm :
    (fuel : ℕ) (q : Heap) (pos : ℕ)
    → pos < fuel
    → pos < length q
    → Returns (λ r. Perm r q) (up fuel q pos)
unfolding up
up-perm zero q pos f h = absurd (omega arith)
up-perm (suc fuel) q pos f h = elim (Bool-cases (pos == 0)) [
  | inl root ↦ rw root (returns Perm.rfl)
  | inr inner ↦
      let above : 0 < pos = ground arith in
      let p = (pos - 1) / 2 in
      rw (inner, time_at-key q p (omega arith), time_at-key q pos h)
        (elim (Bool-cases (ltb (key q p) (key q pos))) [
          | inl less ↦ rw less (
              Returns-bind (swap-Returns q p pos (omega arith) h) λ r w.
                Returns-map (up-perm fuel r p (omega arith) (omega (arith, w.size)))
                  λ s same. Perm.trans same w.same)
          | inr more ↦ rw more (returns Perm.rfl)
        ])
]

-- Push never fails, and adds exactly the item.
pub push-perm : (q : Heap) (x : WaitingItem) → Returns (λ r. Perm r (x ∷ q)) (push q x)
unfolding push
push-perm q x =
    let size : length (q ++ x ∷ []) ≡ suc (length q) = omega (arith, length-append q (x ∷ [])) in
    Returns-map
      (up-perm (length (q ++ x ∷ [])) (q ++ x ∷ []) (length (q ++ x ∷ []) - 1) (omega arith)
        (omega arith))
      λ r same. Perm.trans same (concat-perm q x)

-- One round of `Down`, after the later of the two children is chosen.
sink-perm :
    (fuel : ℕ) (q : Heap) (pos child : ℕ)
    → pos < length q
    → child < length q
    → ((r : Heap) → length r ≡ length q → Returns (λ s. Perm s r) (down fuel r child))
    → Returns
        (λ r. Perm r q)
        (time_at q pos >>= λ t. time_at q child >>= λ tc.
          if ltb t tc then some q else (swap q child pos >>= λ q'. down fuel q' child))
sink-perm fuel q pos child hp hc rec =
    rw (time_at-key q pos hp, time_at-key q child hc)
      (elim (Bool-cases (ltb (key q pos) (key q child))) [
        | inl less ↦ rw less (returns Perm.rfl)
        | inr more ↦ rw more (
            Returns-bind (swap-Returns q child pos hc hp)
              λ r w. Returns-map (rec r w.size) λ s same. Perm.trans same w.same)
      ])

down-perm :
    (fuel : ℕ) (q : Heap) (pos : ℕ)
    → pos < length q
    → length q ≤ fuel + pos
    → Returns (λ r. Perm r q) (down fuel q pos)
unfolding down
down-perm zero q pos h f = absurd (omega arith)
down-perm (suc fuel) q pos h f =
    let deeper =
      λ (child : ℕ) (lt : pos < child) (hc : child < length q) (r : Heap) (e : length r ≡ length q).
        down-perm fuel r child (omega arith) (omega arith) in
    elim (Bool-cases (leb (length q) (2 * pos + 1) || leb (length q) (2 * pos + 2))) [
      | inl leaf ↦ rw leaf (returns Perm.rfl)
      | inr inner ↦
          let h1 : 2 * pos + 1 < length q = ground arith in
          let h2 : 2 * pos + 2 < length q = ground arith in
          rw (inner, time_at-key q (2 * pos + 1) h1, time_at-key q (2 * pos + 2) h2)
            (elim (Bool-cases (ltb (key q (2 * pos + 1)) (key q (2 * pos + 2)))) [
              | inl first ↦
                  rw first (
                    sink-perm fuel q pos (2 * pos + 1) h h1 (deeper (2 * pos + 1) (omega arith) h1))
              | inr second ↦
                  rw second (
                    sink-perm fuel q pos (2 * pos + 2) h h2 (deeper (2 * pos + 2) (omega arith) h2))
            ])
    ]

-- The entry at `i` is overwritten by the last one, which is cut off.
module _ (q : Heap) (i n : ℕ) (item back : WaitingItem) (size : length q ≡ suc n) (hi : i < suc n)
    (at : get_elem? q i ≡ some item) (last : get_elem? q n ≡ some back) where
  cut-perm : Perm (item ∷ take n (set q i back)) q
  cut-perm =
      let b = set q i back in
      let kept : get_elem? b n ≡ some back = ground (arith, get_elem?-set q i n back) in
      let whole = take-append_last n b back (omega (arith, length-set q i back)) kept in
      let front = rw whole at (Perm.symm (concat-perm (take n b) back)) in
      Perm.cons_inv (
        Perm.trans (Perm.swap item back _)
          (Perm.trans (Perm.cons item front) (set-perm q i item back at)))

  length-cut : length (take n (set q i back)) ≡ n
  length-cut = omega (arith, length-perm cut-perm)

-- What Pop returns: nothing for an empty queue, and otherwise the root and the other items.
abbrev pub Popped : Heap → Option WaitingItem × Heap → Type 0
Popped [] p = (p.0 ≡ none) × (p.1 ≡ [])
Popped (top ∷ rest) p = (p.0 ≡ some top) × Perm p.1 rest

-- Pop never fails; it returns the root and keeps exactly the other items.
pub pop-perm : (q : Heap) → Returns (Popped q) (pop q)
unfolding pop
pop-perm [] = returns (refl, refl)
pop-perm (top ∷ rest) =
    let (back, last) = get_elem?-lt (top ∷ rest) (length rest) (omega arith) in
    let popped = take (length rest) (set (top ∷ rest) 0 back) in
    let same = cut-perm (top ∷ rest) 0 (length rest) top back refl (omega arith) refl last in
    let size = length-cut (top ∷ rest) 0 (length rest) top back refl (omega arith) refl last in
    rw last (elim (Bool-cases (length popped == 0)) [
      | inl empty ↦ rw empty (returns (refl, Perm.cons_inv same))
      | inr more ↦ rw more (
          Returns-bind (down-perm (length popped) popped 0 (ground arith) (omega arith))
            λ r s. returns (refl, Perm.trans s (Perm.cons_inv same)))
    ])

-- What Remove returns: true and the other items, or false and an untouched queue that holds no
-- item of the job.
abbrev pub Removed : Str → Heap → Bool × Heap → Type 0
Removed job q p =
    ((p.0 ≡ true) × ((item : WaitingItem) × (item.jobid ≡ job) × Perm (item ∷ p.1) q))
    ⊎ ((p.0 ≡ false)
        × (p.1 ≡ q)
        × ((k : ℕ) (item : WaitingItem) → get_elem? q k ≡ some item → item.jobid ≢ job))

remove_loop-perm :
    (left i : ℕ) (q : Heap) (job : Str)
    → left + i ≡ length q
    → ((k : ℕ) (item : WaitingItem) → k < i → get_elem? q k ≡ some item → item.jobid ≢ job)
    → Returns (Removed job q) (remove_loop left i q job)
unfolding remove_loop
remove_loop-perm zero i q job size before =
    returns
      (inr (refl, refl, λ k item e. before k item (omega (arith, lt-of-get_elem? q k item e)) e))
remove_loop-perm (suc left) i q job size before =
    let n = length q - 1 in
    let whole : length q ≡ suc n = omega arith in
    let (item, at) = get_elem?-lt q i (omega arith) in
    let (back, last) = get_elem?-lt q n (omega arith) in
    let same = cut-perm q i n item back whole (omega arith) at last in
    let cut = length-cut q i n item back whole (omega arith) at last in
    let rest = λ (other : item.jobid ≢ job).
      remove_loop-perm left (suc i) q job (omega arith) λ k x lt e. elim (ℕ_discrete k i) [
        | yes here ↦ ground (arith, other)
        | no there ↦ before k x (omega arith) e
      ] in
    rw (at, last)
      (elim (Str-discrete item.jobid job) [
        | yes hit ↦ rw (if_pos _ hit) (elim (Bool-cases (i == n)) [
          | inl end ↦ rw end (returns (inl (refl, (item, hit, same))))
          | inr inner ↦ rw inner (
              Returns-bind (down-perm (length q) _ i (ground arith) (omega arith))
                λ r s. returns (inl (refl, (item, hit, Perm.trans (Perm.cons item s) same))))
        ])
        | no miss ↦ rw (if_neg _ miss) (rest miss)
      ])

-- Remove never fails; it takes away one item of the job if there is one, and nothing else.
pub remove-perm : (q : Heap) (job : Str) → Returns (Removed job q) (remove q job)
unfolding remove
remove-perm q job =
    remove_loop-perm (length q) 0 q job (omega arith) (λ k item lt. absurd (omega arith))
