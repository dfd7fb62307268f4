-- ===== src/Schedule/Store.antt =====
-- The store of jobs, and what of a job stays as it is while the job lives.
use qos_planner.Common.{
  ℕ, ◌<◌, ◌≤◌, ◌≡◌, refl, ◌∙◌, List, [], ◌∷◌, ◌++◌, Option, some, arith, length, get_elem?, set,
  ◌==◌, if◌then◌else◌, >>=-eq-some, get_elem?-append, get_elem?-append_last, get_elem?-set,
  lt-of-get_elem?, if_pos, if_neg, subst, ℕ_discrete, Bool-cases, inl, inr, str_ltb, Str,
  Str-discrete,
}
use qos_planner.Common.Map.{find, assign, erase}
use qos_planner.Job.{Job}
use qos_planner.Schedule.{Store, deref}

-- Two jobs that differ in their state at most.
pub record SameRequest (i j : Job) : Type 0 where
  pub jobid : i.jobid ≡ j.jobid
  pub tstart : i.tstart ≡ j.tstart
  pub tend : i.tend ≡ j.tend
  pub osts : i.osts ≡ j.osts
  pub throughput : i.min_read_throughput ≡ j.min_read_throughput

abbrev pub same : (j : Job) → SameRequest j j
same j = record { jobid = refl; tstart = refl; tend = refl; osts = refl; throughput = refl }

-- Every job of `h` lives on in `h'`, in some state.
abbrev pub Keeps : Store → Store → Type 0
Keeps h h' =
    (p : ℕ) (j : Job) → deref h p ≡ some j → (i : Job) × (deref h' p ≡ some i) × SameRequest i j

pub deref-lt : (h : Store) (p : ℕ) (j : Job) → deref h p ≡ some j → p < length h
unfolding deref
deref-lt h p j e =
    let (c, at, _) = >>=-eq-some (get_elem? h p) (λ cell. cell) e in lt-of-get_elem? h p c at

pub deref-append :
    (h : Store) (c : Option Job) (p : ℕ) (j : Job)
    → deref h p ≡ some j
    → deref (h ++ c ∷ []) p ≡ some j
unfolding deref
deref-append h c p j e = rw (get_elem?-append h (c ∷ []) p (deref-lt h p j e)) e

pub deref-new : (h : Store) (j : Job) → deref (h ++ some j ∷ []) (length h) ≡ some j
unfolding deref
deref-new h j = rw (get_elem?-append_last h (some j))

pub append-Keeps : (h : Store) (c : Option Job) → Keeps h (h ++ c ∷ [])
append-Keeps h c p j e = (j, deref-append h c p j e, same j)

pub deref-set :
    (h : Store) (p q : ℕ) (c : Option Job)
    → p < length h
    → deref (set h p c) q ≡ (if p == q then c else deref h q)
unfolding deref
deref-set h p q c lt = ground (arith, get_elem?-set h p q c lt)

pub set-Keeps :
    (h : Store) (p : ℕ) (i j : Job)
    → deref h p ≡ some j
    → SameRequest i j
    → Keeps h (set h p (some i))
set-Keeps h p i j e r q k f =
    rw (deref-set h p q (some i) (deref-lt h p j e)) (elim (ℕ_discrete p q) [
      | yes here ↦ let eq : j ≡ k = ground arith in (i, ground arith, subst (SameRequest i) eq r)
      | no there ↦ (k, ground arith, same k)
    ])

-- The pointers lead to jobs, which start at `bound` or later and in ascending order.
abbrev pub IsOrdered : Store → ℕ → List ℕ → Type 0
IsOrdered h bound [] = Unit {0}
IsOrdered h bound (p ∷ l) =
    (j : Job) × (deref h p ≡ some j) × (bound ≤ j.tstart) × IsOrdered h j.tstart l

pub Keeps-IsOrdered :
    (h h' : Store) (bound bound' : ℕ) (l : List ℕ)
    → Keeps h h'
    → bound' ≤ bound
    → IsOrdered h bound l
    → IsOrdered h' bound' l
Keeps-IsOrdered h h' b b' [] k le o = tt
Keeps-IsOrdered h h' b b' (p ∷ l) k le (j, e, start, rest) =
    let (i, e', s) = k p j e in
    (
      i,
      e',
      omega (arith, s.tstart),
      Keeps-IsOrdered h h' j.tstart i.tstart l k (omega (arith, s.tstart)) rest,
    )

-- The entries of `jobs_` lead to jobs of that name.
abbrev pub IsNamed : Store → List (Str × ℕ) → Type 0
IsNamed h [] = Unit {0}
IsNamed h ((k, p) ∷ m) = ((j : Job) × (deref h p ≡ some j) × (j.jobid ≡ k)) × IsNamed h m

pub Keeps-IsNamed : (h h' : Store) (m : List (Str × ℕ)) → Keeps h h' → IsNamed h m → IsNamed h' m
Keeps-IsNamed h h' [] k n = tt
Keeps-IsNamed h h' ((id, p) ∷ m) k ((j, e, named), rest) =
    let (i, e', s) = k p j e in ((i, e', s.jobid ∙ named), Keeps-IsNamed h h' m k rest)

pub find-IsNamed :
    (h : Store) (k : Str) (p : ℕ) (m : List (Str × ℕ))
    → IsNamed h m
    → find k m ≡ some p
    → (j : Job) × (deref h p ≡ some j) × (j.jobid ≡ k)
unfolding find
find-IsNamed h k p [] n e = cc
find-IsNamed h k p ((i, q) ∷ m) ((j, at, named), rest) e = elim (Str-discrete i k) [
  | yes hit ↦ (j, ground arith, named ∙ hit)
  | no miss ↦ find-IsNamed h k p m rest (ground arith)
]

pub assign-IsNamed :
    (h : Store) (k : Str) (p : ℕ) (j : Job) (m : List (Str × ℕ))
    → IsNamed h m
    → deref h p ≡ some j
    → j.jobid ≡ k
    → IsNamed h (assign k p m)
unfolding assign
assign-IsNamed h k p j [] n e named = ((j, e, named), tt)
assign-IsNamed h k p j ((i, q) ∷ m) n e named = elim (Str-discrete i k) [
  | yes hit ↦ rw (if_pos _ hit) ((j, e, named), n.1)
  | no miss ↦ rw (if_neg _ miss) (elim (Bool-cases (str_ltb k i)) [
    | inl less ↦ rw less ((j, e, named), n)
    | inr more ↦ rw more (n.0, assign-IsNamed h k p j m n.1 e named)
  ])
]

pub erase-IsNamed : (h : Store) (k : Str) (m : List (Str × ℕ)) → IsNamed h m → IsNamed h (erase k m)
unfolding erase
erase-IsNamed h k [] n = tt
erase-IsNamed h k ((i, q) ∷ m) n = elim (Str-discrete i k) [
  | yes hit ↦ rw (if_pos _ hit) (erase-IsNamed h k m n.1)
  | no miss ↦ rw (if_neg _ miss) (n.0, erase-IsNamed h k m n.1)
]
