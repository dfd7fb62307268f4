-- ===== src/Schedule/Order.antt =====
-- The lists of the OSTs under `AddJob`, and their order.
use mathlib.Core.List.{perm_middle, not-mem-nil, mem-cons, mem-cons_self}
use mathlib.Core.Logic.Or
use mathlib.Core.List.Perm
use qos_planner.Common.{
  ℕ, ◌≤◌, ◌≡◌, List, [], ◌∷◌, ◌++◌, some, arith, Perm, ite, if_pos, if_neg, Str, Str-discrete, ltb,
  Mem, sym, Bool-cases, inl, inr, Returns, returns, Returns-bind, Returns-map,
}
use qos_planner.Common.Map.{assign, find-assign}
use qos_planner.Job.{Job}
use qos_planner.Schedule.{Store, deref, insert_by_start, ost_list, insert_all}
use qos_planner.Schedule.Store.{IsOrdered}

-- The pointer is put into the ordered list, which stays in order.
pub insert_by_start-IsOrdered :
    (h : Store) (p bound : ℕ) (j : Job) (l : List ℕ)
    → deref h p ≡ some j
    → bound ≤ j.tstart
    → IsOrdered h bound l
    → Returns (λ r. IsOrdered h bound r × Perm r (p ∷ l)) (insert_by_start h p j.tstart l)
unfolding insert_by_start
insert_by_start-IsOrdered h p bound j [] e le o = returns ((j, e, le, tt), Perm.rfl)
insert_by_start-IsOrdered h p bound j (q ∷ l) e le (k, at, start, rest) =
    rw at (elim (Bool-cases (ltb j.tstart k.tstart)) [
      | inl before ↦ rw before (returns ((j, e, le, (k, at, ground arith, rest)), Perm.rfl))
      | inr after ↦ rw after (
          Returns-bind (insert_by_start-IsOrdered h p k.tstart j l e (ground arith) rest)
            λ r (o, same).
              returns ((k, at, start, o), Perm.trans (Perm.cons q same) (Perm.swap p q l)))
    ])

pub ost_list-assign :
    (o ost : Str) (l : List ℕ) (m : List (Str × List ℕ))
    → ost_list ost (assign o l m) ≡ ite (Str-discrete o ost) l (ost_list ost m)
ost_list-assign o ost l m = ground (arith, find-assign o ost l m)

-- The pointer `p`, as often as `osts` names the OST.
unfoldable pub copies : Str → List Str → ℕ → List ℕ
copies ost [] p = []
copies ost (o ∷ os) p = ite (Str-discrete o ost) (p ∷ copies ost os p) (copies ost os p)

-- Every list is in order.
abbrev pub AllOrdered : Store → List (Str × List ℕ) → Type 0
AllOrdered h m = (ost : Str) → IsOrdered h 0 (ost_list ost m)

-- `m'` is `m` with the pointer added to the list of each of the OSTs, and nothing else.
abbrev pub Booked : ℕ → List Str → List (Str × List ℕ) → List (Str × List ℕ) → Type 0
Booked p osts m m' = (ost : Str) → Perm (ost_list ost m') (copies ost osts p ++ ost_list ost m)

-- One round of the loop.
module _ (h : Store) (p : ℕ) (o : Str) (os : List Str) (m : List (Str × List ℕ)) (l : List ℕ) where
  assign-AllOrdered : AllOrdered h m → IsOrdered h 0 l → AllOrdered h (assign o l m)
  assign-AllOrdered ord lo ost = rw (ost_list-assign o ost l m) (elim (Str-discrete o ost) [
    | yes hit ↦ rw (if_pos _ hit) lo
    | no miss ↦ rw (if_neg _ miss) (ord ost)
  ])

  assign-copies :
      Perm l (p ∷ ost_list o m)
      → (ost : Str)
      → Perm
          (copies ost os p ++ ost_list ost (assign o l m))
          (copies ost (o ∷ os) p ++ ost_list ost m)
  unfolding copies
  assign-copies same ost = rw (ost_list-assign o ost l m) (elim (Str-discrete o ost) [
    | yes hit ↦
        rw (if_pos _ hit, if_pos _ hit)
          (Perm.trans (Perm.append Perm.rfl (rw hit at same))
            (perm_middle (copies ost os p) (ost_list ost m)))
    | no miss ↦ rw (if_neg _ miss, if_neg _ miss) Perm.rfl
  ])

pub insert_all-Booked :
    (h : Store) (p : ℕ) (j : Job) (osts : List Str) (m : List (Str × List ℕ))
    → deref h p ≡ some j
    → AllOrdered h m
    → Returns (λ m'. AllOrdered h m' × Booked p osts m m') (insert_all h p j.tstart osts m)
unfolding insert_all
insert_all-Booked h p j [] m e o = returns (o, λ ost. unfold copies in Perm.rfl)
insert_all-Booked h p j (o ∷ os) m e ord =
    Returns-bind (insert_by_start-IsOrdered h p 0 j (ost_list o m) e (omega arith) (ord o))
      λ l (lo, same).
        Returns-map
          (insert_all-Booked h p j os (assign o l m) e (assign-AllOrdered h p o os m l ord lo))
          λ m' (ord', booked).
            (ord', λ ost. Perm.trans (booked ost) (assign-copies h p o os m l same ost))

-- A pointer is on the list of each OST that is named.
pub mem-copies : (ost : Str) (osts : List Str) (p : ℕ) → Mem ost osts → Mem p (copies ost osts p)
unfolding copies
mem-copies ost [] p = λ m. absurd (not-mem-nil m)
mem-copies ost (o ∷ os) p = λ m. elim (Str-discrete o ost) [
  | yes hit ↦ rw (if_pos _ hit) mem-cons_self
  | no miss ↦
      rw (if_neg _ miss)
        (mem-copies ost os p (Or.elim squash₁ (mem-cons.0 m) (λ e. absurd (miss (sym e))) (λ r. r)))
]
