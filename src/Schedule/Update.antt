-- ===== src/Schedule/Update.antt =====
-- `UpdateJob`.
use qos_planner.Common.{
  ℕ, ◌≡◌, ◌⊎◌, refl, sym, ap, ◌∙◌, subst, none, some, arith, Bool, true, false, Mem, ite, if_pos,
  if_neg, Str, Str-discrete, Option-cases, inl, inr, some_eq, Returns, returns, set,
}
use qos_planner.Common.Map.{find}
use qos_planner.Job.{Job, JobState, set_state}
use qos_planner.Schedule.{Schedule, deref, update_job}
use qos_planner.Schedule.Store.{
  SameRequest, Keeps, Keeps-IsOrdered, Keeps-IsNamed, set-Keeps, deref-set, deref-lt,
}
use qos_planner.Schedule.Valid.{IsValid, view, find-live, view-known}

set_state-SameRequest : (st : JobState) (j : Job) → SameRequest (set_state st j) j
set_state-SameRequest st j = record {
  jobid = refl;
  tstart = refl;
  tend = refl;
  osts = refl;
  throughput = refl;
}

module _ (s : Schedule) (jobid : Str) (st : JobState) (v : IsValid s) (p : ℕ) (j : Job)
    (e : find jobid s.jobs ≡ some p) (at : deref s.store p ≡ some j) (named : j.jobid ≡ jobid) where
  abbrev updated : Schedule
  updated = record s { store = set s.store p (some (set_state st j)) }

  kept : Keeps s.store updated.store
  kept = set-Keeps s.store p (set_state st j) j at (set_state-SameRequest st j)

  -- Another id has another pointer.
  other-pointer : (k : Str) (q : ℕ) → ¬ (jobid ≡ k) → find k s.jobs ≡ some q → ¬ (p ≡ q)
  other-pointer k q miss f eq =
      let (i, was, name) = find-live s k q v f in
      let one : j ≡ i = some_eq (sym at ∙ ap (deref s.store) eq ∙ was) in
      miss (sym named ∙ ap (λ (x : Job). x.jobid) one ∙ name)

  view-updated :
      (k : Str) → view updated k ≡ ite (Str-discrete jobid k) (some (set_state st j)) (view s k)
  unfolding view
  view-updated k = elim (Str-discrete jobid k) [
    | yes hit ↦
        rw
          (
            if_pos _ hit,
            ← hit,
            e,
            deref-set s.store p p (some (set_state st j)) (deref-lt s.store p j at),
          )
          (ground arith)
    | no miss ↦ rw (if_neg _ miss) (elim (Option-cases (find k s.jobs)) [
      | inl f ↦ rw f
      | inr (q, f) ↦
          let ne = other-pointer k q miss f in
          rw (f, deref-set s.store p q (some (set_state st j)) (deref-lt s.store p j at))
            (ground arith)
    ])
  ]

  updated-IsValid : IsValid updated
  updated-IsValid = record {
    ordered = λ ost. Keeps-IsOrdered s.store updated.store 0 0 _ kept (omega arith) (v.ordered ost);
    named = Keeps-IsNamed s.store updated.store s.jobs kept v.named;
    booked = λ k q i ost f now mem.
        let (was, old, _) = find-live s k q v f in
        let (x, new, like) = kept q was old in
        let one : x ≡ i = some_eq (sym new ∙ now) in
        v.booked k q was ost f old
          (subst (Mem ost) (ap (λ (y : Job). y.osts) (sym one) ∙ like.osts) mem);
  }

-- What UpdateJob returns: false and an untouched schedule for an unknown id, and otherwise true,
-- with the state of that job replaced and every list of pointers as it was.
abbrev pub Updated : Schedule → Str → JobState → Schedule × Bool → Type 0
Updated s jobid st r =
    ((r.1 ≡ false) × (r.0 ≡ s) × (view s jobid ≡ none))
    ⊎ ((j : Job) × (view s jobid ≡ some j)
        × (r.1 ≡ true)
        × IsValid r.0
        × ((k : Str) → view r.0 k ≡ ite (Str-discrete jobid k) (some (set_state st j)) (view s k))
        × (r.0.schedule ≡ s.schedule))

-- UpdateJob on a valid schedule never follows a dangling pointer, fails exactly for unknown ids,
-- changes nothing then, and otherwise keeps the invariant and changes the state of that job only.
pub update_job_correct :
    (s : Schedule) (jobid : Str) (st : JobState)
    → IsValid s
    → Returns (Updated s jobid st) (update_job s jobid st)
unfolding update_job
update_job_correct s jobid st v = elim (Option-cases (find jobid s.jobs)) [
  | inl e ↦ rw (e, update_job) (returns (inl (refl, refl, unfold view in rw e)))
  | inr (p, e) ↦
      let (j, known, at, named) = view-known s jobid p v e in
      rw (e, update_job)
        (rw at (
          returns (
            inr (
              j,
              known,
              refl,
              updated-IsValid s jobid st v p j e at named,
              view-updated s jobid st v p j e at named,
              refl,
            ))))
]
