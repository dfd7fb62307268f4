-- ===== src/Schedule/Remove.antt =====
-- `RemoveJob`.
use qos_planner.Common.{
  ℕ, ◌≡◌, ◌⊎◌, refl, sym, ap, ◌∙◌, subst, List, [], ◌∷◌, none, some, arith, Bool, true, false, Mem,
  ite, if_pos, if_neg, Str, Str-discrete, Option-cases, inl, inr, Returns, returns, Returns-bind,
  Returns-map,
}
use qos_planner.Common.Map.{find, assign, erase, find-erase}
use qos_planner.Job.{Job}
use qos_planner.Schedule.{Store, Schedule, deref, ost_list, scan_copy, scan_osts, remove_job}
use qos_planner.Schedule.Store.{IsOrdered, erase-IsNamed}
use qos_planner.Schedule.Order.{AllOrdered, ost_list-assign}
use qos_planner.Schedule.Valid.{IsValid, view, view-known}

scan_copy-ends :
    (h : Store) (jobid : Str) (bound : ℕ) (l : List ℕ)
    → IsOrdered h bound l
    → scan_copy h jobid l ≡ some tt
unfolding scan_copy
scan_copy-ends h jobid bound [] o = refl
scan_copy-ends h jobid bound (p ∷ l) (j, at, start, rest) =
    rw (at, scan_copy-ends h jobid j.tstart l rest) (ground arith)

abbrev SameLists : List (Str × List ℕ) → List (Str × List ℕ) → Type 0
SameLists m m' = (ost : Str) → ost_list ost m' ≡ ost_list ost m

assign_self-SameLists :
    (o : Str) (m : List (Str × List ℕ)) → SameLists m (assign o (ost_list o m) m)
assign_self-SameLists o m ost =
    rw (ost_list-assign o ost (ost_list o m) m) (elim (Str-discrete o ost) [
      | yes hit ↦ rw (if_pos _ hit) (ap (λ x. ost_list x m) hit)
      | no miss ↦ rw (if_neg _ miss)
    ])

SameLists-AllOrdered :
    (h : Store) (m m' : List (Str × List ℕ)) → SameLists m m' → AllOrdered h m → AllOrdered h m'
SameLists-AllOrdered h m m' same o ost = subst (IsOrdered h 0) (sym (same ost)) (o ost)

scan_osts-SameLists :
    (h : Store) (jobid : Str) (osts : List Str) (m : List (Str × List ℕ))
    → AllOrdered h m
    → Returns (SameLists m) (scan_osts h jobid osts m)
unfolding scan_osts
scan_osts-SameLists h jobid [] m o = returns (λ ost. refl)
scan_osts-SameLists h jobid (ost ∷ osts) m o =
    let one = assign_self-SameLists ost m in
    rw (scan_copy-ends h jobid 0 (ost_list ost m) (o ost)) (
      Returns-map
        (scan_osts-SameLists h jobid osts (assign ost (ost_list ost m) m)
          (SameLists-AllOrdered h m (assign ost (ost_list ost m) m) one o))
        λ m' same x. same x ∙ one x)

module _ (s : Schedule) (jobid : Str) (v : IsValid s) (m : List (Str × List ℕ))
    (same : SameLists s.schedule m) where
  abbrev shrunk : Schedule
  shrunk = record { store = s.store; schedule = m; jobs = erase jobid s.jobs }

  view-shrunk : (k : Str) → view shrunk k ≡ ite (Str-discrete jobid k) none (view s k)
  unfolding view
  view-shrunk k = rw (find-erase jobid k s.jobs) (elim (Str-discrete jobid k) [
    | yes hit ↦ rw (if_pos _ hit, if_pos _ hit)
    | no miss ↦ rw (if_neg _ miss, if_neg _ miss)
  ])

  shrunk-IsValid : IsValid shrunk
  shrunk-IsValid = record {
    ordered = SameLists-AllOrdered s.store s.schedule m same v.ordered;
    named = erase-IsNamed s.store jobid s.jobs v.named;
    booked = λ k p j ost e at mem.
        subst (Mem p) (sym (same ost))
          (v.booked k p j ost (ground (arith, find-erase jobid k s.jobs)) at mem);
  }

-- What RemoveJob returns: false and an untouched schedule for an unknown id, and otherwise true,
-- with the job gone from the abstract schedule and every list of pointers as it was.
abbrev pub Removed : Schedule → Str → Schedule × Bool → Type 0
Removed s jobid r =
    ((r.1 ≡ false) × (r.0 ≡ s) × (view s jobid ≡ none))
    ⊎ ((j : Job) × (view s jobid ≡ some j)
        × (r.1 ≡ true)
        × IsValid r.0
        × ((k : Str) → view r.0 k ≡ ite (Str-discrete jobid k) none (view s k))
        × SameLists s.schedule r.0.schedule)

-- RemoveJob on a valid schedule never follows a dangling pointer, fails exactly for unknown ids,
-- and otherwise forgets exactly that job, while the lists of the OSTs keep every pointer.
pub remove_job_correct :
    (s : Schedule) (jobid : Str) → IsValid s → Returns (Removed s jobid) (remove_job s jobid)
unfolding remove_job
remove_job_correct s jobid v = elim (Option-cases (find jobid s.jobs)) [
  | inl e ↦ rw (e, remove_job) (returns (inl (refl, refl, unfold view in rw e)))
  | inr (p, e) ↦
      let (j, known, at, named) = view-known s jobid p v e in
      rw (e, remove_job)
        (rw at (
          Returns-bind (scan_osts-SameLists s.store jobid j.osts s.schedule v.ordered) λ m same.
            returns (
              inr (
                j,
                known,
                refl,
                shrunk-IsValid s jobid v m same,
                view-shrunk s jobid v m same,
                same,
              ))))
]

-- On a valid schedule, RemoveJob of a known job succeeds and its id becomes unknown, but its
-- pointer stays on the list of each of its OSTs, and still leads to the job.
pub remove_job_stays :
    (s : Schedule) (jobid : Str) (p : ℕ) (j : Job) (ost : Str)
    → IsValid s
    → find jobid s.jobs ≡ some p
    → deref s.store p ≡ some j
    → Mem ost j.osts
    → Returns
        (λ r.
          (r.1 ≡ true)
          × (view r.0 jobid ≡ none)
          × Mem p (ost_list ost r.0.schedule)
          × (deref r.0.store p ≡ some j))
        (remove_job s jobid)
unfolding remove_job
remove_job_stays s jobid p j ost v e at mem =
    rw (e, remove_job)
      (rw at (
        Returns-bind (scan_osts-SameLists s.store jobid j.osts s.schedule v.ordered) λ m same.
          returns (
            refl,
            ground (arith, view-shrunk s jobid v m same jobid),
            subst (Mem p) (sym (same ost)) (v.booked jobid p j ost e at mem),
            at,
          )))
