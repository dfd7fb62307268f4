-- ===== src/System/Waiting.antt =====
-- How many items of a job wait in the queue.
use mathlib.Core.List.{Permᴰ, not-mem-nil, mem-cons}
use mathlib.Core.List.Perm
use mathlib.Core.Logic.Or
use mathlib.Core.Logic.{∥∥₁_elim}
use mathlib.Core.Path.{ap₂}
use native.Mathlib.Bridge.{le_prop}
use native.Mathlib.Nat.{ℕ_set}
use qos_planner.Common.{
  get_elem?, some, ℕ, suc, ◌+◌, ◌<◌, ◌≡◌, ◌≢◌, refl, ap, ◌∙◌, [], ◌∷◌, Mem, Perm, ite, Str,
  Str-discrete, arith,
}
use qos_planner.Queue.{WaitingItem, Heap}

abbrev pub one : Str → WaitingItem → ℕ
one k x = ite (Str-discrete x.jobid k) 1 0

unfoldable pub waiting : Str → Heap → ℕ
waiting k [] = 0
waiting k (x ∷ q) = one k x + waiting k q

same_waiting : (k : Str) {p q : Heap} → Permᴰ p q → waiting k p ≡ waiting k q
unfolding waiting
same_waiting k Permᴰ.nil = refl
same_waiting k (Permᴰ.cons e rest) = ap₂ ◌+◌ (ap (one k) e) (same_waiting k rest)
same_waiting k (Permᴰ.swap e f) = omega (arith, ap (one k) e, ap (one k) f)
same_waiting k (Permᴰ.trans p q) = same_waiting k p ∙ same_waiting k q

pub waiting-perm : (k : Str) {p q : Heap} → Perm p q → waiting k p ≡ waiting k q
waiting-perm k same = ∥∥₁_elim same (ℕ_set _ _) (same_waiting k)

-- An item that is there counts.
pub waiting-mem : (x : WaitingItem) (q : Heap) → Mem x q → 0 < waiting x.jobid q
unfolding waiting
waiting-mem x [] = λ m. absurd (not-mem-nil m)
waiting-mem x (y ∷ q) = λ m.
    Or.elim le_prop (mem-cons.0 m) (λ e. ground (arith, ap (λ (i : WaitingItem). i.jobid) e))
      (λ r. ground (arith, waiting-mem x q r))

-- What is left of a queue without one of its items.
pub mem-left :
    (x y : WaitingItem) (q rest : Heap) → Perm (x ∷ rest) q → Mem y q → y ≢ x → Mem y rest
mem-left x y q rest same m ne =
    Or.elim squash₁ (mem-cons.0 ((Perm.mem_iff same).1 m)) (λ e. absurd (ne e)) (λ r. r)

-- No item of the job, no count.
pub waiting-absent :
    (job : Str) (q : Heap)
    → ((k : ℕ) (item : WaitingItem) → get_elem? q k ≡ some item → item.jobid ≢ job)
    → waiting job q ≡ 0
unfolding waiting
waiting-absent job [] h = refl
waiting-absent job (x ∷ q) h =
    ground (arith, h 0 x, waiting-absent job q (λ k item e. h (suc k) item e))
