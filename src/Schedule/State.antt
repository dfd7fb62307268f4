-- ===== src/Schedule/State.antt =====
-- src/common/ScheduleState.h: what the abstract class promises, as a record of operations and laws about
-- an abstract map from ids to jobs. MemoryScheduleState fills it.
use mathlib.Core.Option
use qos_planner.Common.{
  ◌≡◌, refl, List, Bool, true, false, Option, none, some, ite, Str, Str-discrete, arith, inl, inr,
  Returns, returns, Returns-map,
}
use qos_planner.Common.Map.{find}
use qos_planner.Job.{Job, JobState, set_state}
use qos_planner.Schedule.{
  Schedule, empty, add_job, remove_job, update_job, reset, get_of_job, get_all_jobs,
}
use qos_planner.Schedule.Valid.{IsValid, view, empty-IsValid, Added, add_job_correct}
use qos_planner.Schedule.Remove.{Removed, remove_job_correct}
use qos_planner.Schedule.Update.{Updated, update_job_correct}
use qos_planner.Schedule.View.{get_of_job-view, get_all_jobs-view}

-- A call that changes the schedule.
pub data Operation : Type 0 where
  add : Job → Operation
  remove : Str → Operation
  update : Str → JobState → Operation
  clear : Operation

-- The jobs by their ids.
abbrev pub View : Type 0
View = Str → Option Job

-- What a call does to the map of jobs, and whether it succeeds.
abbrev pub view_step : Operation → View → View × Bool
view_step (add job) v = elim (v job.jobid) [
  | none ↦ (λ k. ite (Str-discrete job.jobid k) (some job) (v k), true)
  | some known ↦ (v, false)
]
view_step (remove id) v = elim (v id) [
  | none ↦ (v, false)
  | some job ↦ (λ k. ite (Str-discrete id k) none (v k), true)
]
view_step (update id st) v = elim (v id) [
  | none ↦ (v, false)
  | some job ↦ (λ k. ite (Str-discrete id k) (some (set_state st job)) (v k), true)
]
view_step clear v = (λ k. none, true)

-- The map agrees with that one at every id.
abbrev pub SameView : View → View → Type 0
SameView v w = (k : Str) → v k ≡ w k

-- The operations, and what they promise.
pub record ScheduleState : Type 1 where
  pub Carrier : Type 0
  pub IsProper : Carrier → Type 0
  pub jobs : Carrier → View
  pub start : Carrier
  pub start-IsProper : IsProper start
  pub jobs-start : SameView (jobs start) (λ k. none)
  pub run : Operation → Carrier → Option (Carrier × Bool)
  pub run-view_step :
      (o : Operation) (s : Carrier)
      → IsProper s
      → Returns
          (λ r.
            IsProper r.0
            × (r.1 ≡ (view_step o (jobs s)).1)
            × SameView (jobs r.0) (view_step o (jobs s)).0)
          (run o s)
  pub read : {A : Type 0} → (Job → A) → Carrier → Str → Option (Option A)
  pub read-jobs :
      {A : Type 0} (part : Job → A) (s : Carrier) (k : Str)
      → IsProper s
      → read part s k ≡ some (Option.map part (jobs s k))
  pub copy : Carrier → Option (List (Str × Job))
  pub copy-jobs :
      (s : Carrier) → IsProper s → Returns (λ l. SameView (λ k. find k l) (jobs s)) (copy s)

-- One call on a `MemoryScheduleState`; a job is added under its own id, for its own OSTs.
unfoldable pub run_operation : Operation → Schedule → Option (Schedule × Bool)
unfolding add_job remove_job update_job reset
run_operation (add job) s = add_job s job.jobid job job.osts
run_operation (remove id) s = remove_job s id
run_operation (update id st) s = update_job s id st
run_operation clear s = some (reset s, true)

-- What one call on a valid schedule comes to.
abbrev pub Stepped : Operation → Schedule → Schedule × Bool → Type 0
Stepped o s r =
    IsValid r.0 × (r.1 ≡ (view_step o (view s)).1) × SameView (view r.0) (view_step o (view s)).0

Added-Stepped :
    (s : Schedule) (job : Job) (r : Schedule × Bool)
    → IsValid s
    → Added s job.jobid job r
    → Stepped (add job) s r
Added-Stepped s job r v (inl (failed, same, (known, e))) =
    (rw same v, ground arith, λ k. ground arith)
Added-Stepped s job r v (inr (done, e, valid, views, _)) =
    (valid, ground arith, λ k. ground (arith, views k))

Removed-Stepped :
    (s : Schedule) (id : Str) (r : Schedule × Bool)
    → IsValid s
    → Removed s id r
    → Stepped (remove id) s r
Removed-Stepped s id r v (inl (failed, same, e)) = (rw same v, ground arith, λ k. ground arith)
Removed-Stepped s id r v (inr (j, e, done, valid, views, _)) =
    (valid, ground arith, λ k. ground (arith, views k))

Updated-Stepped :
    (s : Schedule) (id : Str) (st : JobState) (r : Schedule × Bool)
    → IsValid s
    → Updated s id st r
    → Stepped (update id st) s r
Updated-Stepped s id st r v (inl (failed, same, e)) = (rw same v, ground arith, λ k. ground arith)
Updated-Stepped s id st r v (inr (j, e, done, valid, views, _)) =
    (valid, ground arith, λ k. ground (arith, views k))

reset-IsValid : (s : Schedule) → IsValid (reset s)
unfolding reset find
reset-IsValid s = record { ordered = λ ost. tt; named = tt; booked = λ k p j ost e. cc }

reset-view : (s : Schedule) → SameView (view (reset s)) (λ k. none)
unfolding reset view find
reset-view s k = refl

pub start-view : SameView (view empty) (λ k. none)
unfolding view find
start-view k = refl

pub run_operation-Stepped :
    (o : Operation) (s : Schedule) → IsValid s → Returns (Stepped o s) (run_operation o s)
unfolding run_operation
run_operation-Stepped (add job) s v =
    Returns-map (add_job_correct s job.jobid job v refl) λ r a. Added-Stepped s job r v a
run_operation-Stepped (remove id) s v =
    Returns-map (remove_job_correct s id v) λ r a. Removed-Stepped s id r v a
run_operation-Stepped (update id st) s v =
    Returns-map (update_job_correct s id st v) λ r a. Updated-Stepped s id st r v a
run_operation-Stepped clear s v = returns (reset-IsValid s, refl, reset-view s)

abbrev pub memory_schedule_state : ScheduleState
memory_schedule_state = record {
  Carrier = Schedule;
  IsProper = IsValid;
  jobs = view;
  start = empty;
  start-IsProper = empty-IsValid;
  jobs-start = start-view;
  run = run_operation;
  run-view_step = run_operation-Stepped;
  read = λ part s k. get_of_job part s k;
  read-jobs = λ part s k v. get_of_job-view part s k v;
  copy = get_all_jobs;
  copy-jobs = λ s v. Returns-map (get_all_jobs-view s v) λ l (_, same). same;
}
