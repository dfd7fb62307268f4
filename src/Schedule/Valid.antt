-- ===== src/Schedule/Valid.antt =====
-- The invariant of the schedule, and `AddJob`.
use mathlib.Core.List.{mem-append_left, mem-append_right}
use mathlib.Core.List.Perm
use qos_planner.Common.{
  ℕ, ◌≡◌, ◌⊎◌, refl, sym, ◌∙◌, subst, List, [], ◌∷◌, ◌++◌, Option, none, some, arith, ◌>>=◌, Bool,
  true, false, Mem, ite, if_pos, if_neg, Str, Str-discrete, Option-cases, inl, inr, some_eq,
  Returns, returns, Returns-bind, length,
}
use qos_planner.Common.Map.{find, assign, find-assign}
use qos_planner.Job.{Job}
use qos_planner.Schedule.{Schedule, empty, deref, ost_list, add_job}
use qos_planner.Schedule.Store.{
  IsNamed, Keeps-IsOrdered, Keeps-IsNamed, append-Keeps, find-IsNamed, assign-IsNamed, deref-append,
  deref-new,
}
use qos_planner.Schedule.Order.{AllOrdered, Booked, copies, insert_all-Booked, mem-copies}

pub record IsValid (s : Schedule) : Type 0 where
  -- the lists hold live jobs, by ascending start
  pub ordered : AllOrdered s.store s.schedule
  -- an id leads to a live job of that id
  pub named : IsNamed s.store s.jobs
  -- a job stands on the list of each of its OSTs
  pub booked :
      (k : Str) (p : ℕ) (j : Job) (ost : Str)
      → find k s.jobs ≡ some p
      → deref s.store p ≡ some j
      → Mem ost j.osts
      → Mem p (ost_list ost s.schedule)

-- The abstract schedule: the job of an id.
unfoldable pub view : Schedule → Str → Option Job
view s k = find k s.jobs >>= deref s.store

pub empty-IsValid : IsValid empty
unfolding find
empty-IsValid = record { ordered = λ ost. tt; named = tt; booked = λ k p j ost e. cc }

pub find-live :
    (s : Schedule) (k : Str) (p : ℕ)
    → IsValid s
    → find k s.jobs ≡ some p
    → (j : Job) × (deref s.store p ≡ some j) × (j.jobid ≡ k)
find-live s k p v e = find-IsNamed s.store k p s.jobs v.named e

-- In a valid schedule an id is unknown exactly when no pointer is stored for it.
pub view-known :
    (s : Schedule) (k : Str) (p : ℕ)
    → IsValid s
    → find k s.jobs ≡ some p
    → (j : Job) × (view s k ≡ some j) × (deref s.store p ≡ some j) × (j.jobid ≡ k)
unfolding view
view-known s k p v e = let (j, at, named) = find-live s k p v e in (j, rw e at, at, named)

module _ (s : Schedule) (jobid : Str) (job : Job) (named : job.jobid ≡ jobid) (v : IsValid s)
    (m : List (Str × List ℕ)) (ordered : AllOrdered (s.store ++ some job ∷ []) m)
    (booked : Booked (length s.store) job.osts s.schedule m) where
  abbrev grown : Schedule
  grown = record {
    store = s.store ++ some job ∷ [];
    schedule = m;
    jobs = assign jobid (length s.store) s.jobs;
  }

  view-grown : (k : Str) → view grown k ≡ ite (Str-discrete jobid k) (some job) (view s k)
  unfolding view
  view-grown k = rw (find-assign jobid k (length s.store) s.jobs) (elim (Str-discrete jobid k) [
    | yes hit ↦ rw (if_pos _ hit, if_pos _ hit) (deref-new s.store job)
    | no miss ↦
        rw (if_neg _ miss, if_neg _ miss)
          (elim (Option-cases (find k s.jobs)) [
            | inl e ↦ rw e
            | inr (p, e) ↦
                let (j, at, _) = find-live s k p v e in
                rw (e, at) (deref-append s.store (some job) p j at)
          ])
  ])

  old-booked :
      (k : Str) (p : ℕ) (j : Job) (ost : Str)
      → find k s.jobs ≡ some p
      → deref (s.store ++ some job ∷ []) p ≡ some j
      → Mem ost j.osts
      → Mem p (ost_list ost m)
  old-booked k p j ost e at mem =
      let (i, was, _) = find-live s k p v e in
      let eq = some_eq (sym (deref-append s.store (some job) p i was) ∙ at) in
      (Perm.mem_iff (booked ost)).1 (
        mem-append_right (copies ost job.osts (length s.store))
          (v.booked k p i ost e was (subst (λ x. Mem ost x.osts) (sym eq) mem)))

  new-booked :
      (j : Job) (ost : Str)
      → some job ≡ some j
      → Mem ost j.osts
      → Mem (length s.store) (ost_list ost m)
  new-booked j ost e mem = (Perm.mem_iff (booked ost)).1 (
      mem-append_left (ost_list ost s.schedule) (
        mem-copies ost job.osts (length s.store)
          (subst (λ x. Mem ost x.osts) (sym (some_eq e)) mem)))

  grown-IsValid : IsValid grown
  grown-IsValid = record {
    ordered = ordered;
    named =
        assign-IsNamed grown.store jobid (length s.store) job s.jobs
          (Keeps-IsNamed s.store grown.store s.jobs (append-Keeps s.store (some job)) v.named)
          (deref-new s.store job) named;
    booked = λ k p j ost e at mem. elim (Str-discrete jobid k) [
      | yes hit ↦
          let here : p ≡ length s.store =
            ground (arith, find-assign jobid k (length s.store) s.jobs) in
          subst (λ x. Mem x (ost_list ost m)) (sym here)
            (new-booked j ost (sym (deref-new s.store job) ∙ rw here at at) mem)
      | no miss ↦
          old-booked k p j ost (ground (arith, find-assign jobid k (length s.store) s.jobs)) at mem
    ];
  }

-- What AddJob returns: false and an untouched schedule for an id in use, and otherwise true, with
-- the job added to the abstract schedule and to the list of each of its OSTs.
abbrev pub Added : Schedule → Str → Job → Schedule × Bool → Type 0
Added s jobid job r =
    ((r.1 ≡ false) × (r.0 ≡ s) × ((j : Job) × (view s jobid ≡ some j)))
    ⊎ ((r.1 ≡ true)
        × (view s jobid ≡ none)
        × IsValid r.0
        × ((k : Str) → view r.0 k ≡ ite (Str-discrete jobid k) (some job) (view s k))
        × Booked (length s.store) job.osts s.schedule r.0.schedule)

-- AddJob of a job under its id never follows a dangling pointer, refuses exactly the ids in use,
-- changes nothing then, and otherwise keeps the invariant and adds exactly the job to the abstract
-- schedule and to the list of each of its OSTs.
pub add_job_correct :
    (s : Schedule) (jobid : Str) (job : Job)
    → IsValid s
    → job.jobid ≡ jobid
    → Returns (Added s jobid job) (add_job s jobid job job.osts)
unfolding add_job
add_job_correct s jobid job v named = elim (Option-cases (find jobid s.jobs)) [
  | inr (p, e) ↦
      let (j, known, _, _) = view-known s jobid p v e in
      rw (e, add_job) (returns (inl (refl, refl, (j, known))))
  | inl e ↦
      let h = s.store ++ some job ∷ [] in
      rw (e, add_job)
        (Returns-bind
          (insert_all-Booked h (length s.store) job job.osts s.schedule (deref-new s.store job)
            λ ost.
              Keeps-IsOrdered s.store h 0 0 _ (append-Keeps s.store (some job)) (omega arith)
                (v.ordered ost))
          λ m (ordered, booked). returns (
            inr (
              refl,
              unfold view in rw e,
              grown-IsValid s jobid job named v m ordered booked,
              view-grown s jobid job named v m ordered booked,
              booked,
            )))
]
