-- ===== src/Scheduler/Interface.antt =====
-- src/common/JobScheduler.h: what the abstract class promises of the jobs in the schedule, as a record of
-- operations and laws. Both schedulers fill it.
use mathlib.Core.Option
use qos_planner.Common.{
  ℕ, ◌≡◌, refl, ap, ◌∙◌, Bool, true, false, Option, none, some, ite, if_pos, if_neg, ◌⊎◌, inl, inr,
  Str, Str-discrete, arith, Option-cases, Returns, returns, Returns-bind, Returns-map,
}
use qos_planner.Job.{Job, JobState, job_of_id, scheduled, set_state}
use qos_planner.Schedule.{Schedule}
use qos_planner.Schedule.Valid.{IsValid, view}
use qos_planner.Schedule.Remove.{Removed, remove_job_correct}
use qos_planner.Schedule.State.{View, SameView}
use qos_planner.Schedule.View.{get_of_job-view}
use qos_planner.Monitor.{JobMonitor}
use qos_planner.Monitor.Unregister.{Unregistered, unregister_job_correct}
use qos_planner.Scheduler.Static.{Floats, StaticScheduler, schedule_job, schedule_remove}
use qos_planner.Scheduler.Admission.{ScheduleOutcome, schedule_job_correct}
use qos_planner.Scheduler.Overbook.{RemoveOutcome, schedule_remove_correct}
use qos_planner.Scheduler.Dynamic.{
  DynScheduler, schedule_job_dyn, schedule_remove_dyn, AdmitOutcome, schedule_job_dyn-outcome,
}

-- What ScheduleJob may do to the jobs: nothing, and return false; or, if the id is free, add the job in
-- some state, and return true.
abbrev pub Scheduled : Job → View → View → Bool → Type 0
Scheduled job before after done =
    ((done ≡ false) × SameView after before)
    ⊎ ((done ≡ true)
        × (before job.jobid ≡ none)
        × (st : JobState) × SameView after
            (λ k. ite (Str-discrete job.jobid k) (some (set_state st job)) (before k)))

-- What RemoveJob does to the jobs: nothing for an unknown id, and return false; and otherwise take the
-- job out, and return true.
abbrev pub Unscheduled : Str → View → View → Bool → Type 0
Unscheduled id before after done =
    ((done ≡ false) × (before id ≡ none) × SameView after before)
    ⊎ ((done ≡ true)
        × ((job : Job) × (before id ≡ some job))
        × SameView after (λ k. ite (Str-discrete id k) none (before k)))

-- The operations, with the contents of the uninitialised variables of ScheduleJob, and what they promise.
pub record JobScheduler : Type 1 where
  pub Carrier : Type 0
  pub IsProper : Carrier → Type 0
  pub jobs : Carrier → View
  pub schedule : (ℕ → ℕ) → Carrier → Job → Option (Carrier × Bool)
  pub schedule-Scheduled :
      (stack : ℕ → ℕ) (s : Carrier) (job : Job)
      → IsProper s
      → Returns (λ r. IsProper r.0 × Scheduled job (jobs s) (jobs r.0) r.1) (schedule stack s job)
  pub remove : Carrier → Str → Option (Carrier × Bool)
  pub remove-Unscheduled :
      (s : Carrier) (id : Str)
      → IsProper s
      → Returns (λ r. IsProper r.0 × Unscheduled id (jobs s) (jobs r.0) r.1) (remove s id)

module _ (floats : Floats) where
  abbrev pub static_jobs : StaticScheduler floats → View
  static_jobs s = view s.monitor.schedule

  abbrev pub IsProperStatic : StaticScheduler floats → Type 0
  IsProperStatic s = IsValid s.monitor.schedule

  pub schedule_job-Scheduled :
      (stack : ℕ → ℕ) (s : StaticScheduler floats) (job : Job)
      → IsProperStatic s
      → Returns
          (λ (r : StaticScheduler floats × Bool).
            IsProperStatic r.0 × Scheduled job (static_jobs s) (static_jobs r.0) r.1)
          (schedule_job floats s job stack)
  schedule_job-Scheduled stack s job v =
      Returns-map (schedule_job_correct floats s job stack v) λ r o. promised r o
    where
      promised :
          (r : StaticScheduler floats × Bool)
          → ScheduleOutcome floats s job stack r
          → IsProperStatic r.0 × Scheduled job (static_jobs s) (static_jobs r.0) r.1
      promised r (inl (same, _)) = rw same (v, inl (refl, λ k. refl))
      promised r (inr (done, _, free, a)) = (a.valid, inr (done, free, scheduled, a.states))

  pub schedule_remove-Unscheduled :
      (s : StaticScheduler floats) (id : Str)
      → IsProperStatic s
      → Returns
          (λ (r : StaticScheduler floats × Bool).
            IsProperStatic r.0 × Unscheduled id (static_jobs s) (static_jobs r.0) r.1)
          (schedule_remove floats s id)
  schedule_remove-Unscheduled s id v =
      Returns-map (schedule_remove_correct floats s id v) λ r o. promised r o
    where
      promised :
          (r : StaticScheduler floats × Bool)
          → RemoveOutcome floats s id r
          → IsProperStatic r.0 × Unscheduled id (static_jobs s) (static_jobs r.0) r.1
      promised r (inl (same, unknown)) = rw same (v, inl (refl, unknown, λ k. refl))
      promised r (inr (done, (j, known, _), valid, views)) = (valid, inr (done, (j, known), views))

  abbrev pub static_scheduler : JobScheduler
  static_scheduler = record {
    Carrier = StaticScheduler floats;
    IsProper = IsProperStatic;
    jobs = static_jobs;
    schedule = λ stack s job. schedule_job floats s job stack;
    schedule-Scheduled = schedule_job-Scheduled;
    remove = schedule_remove floats;
    remove-Unscheduled = schedule_remove-Unscheduled;
  }

abbrev pub dyn_jobs : DynScheduler → View
dyn_jobs s = view s.monitor.schedule

abbrev pub IsProperDyn : DynScheduler → Type 0
IsProperDyn s = IsValid s.monitor.schedule

pub schedule_job_dyn-Scheduled :
    (stack : ℕ → ℕ) (s : DynScheduler) (job : Job)
    → IsProperDyn s
    → Returns
        (λ r. IsProperDyn r.0 × Scheduled job (dyn_jobs s) (dyn_jobs r.0) r.1)
        (schedule_job_dyn s job stack)
schedule_job_dyn-Scheduled stack s job v =
    Returns-map (schedule_job_dyn-outcome s job stack v) λ r o. promised r o
  where
    promised :
        (r : DynScheduler × Bool)
        → ((r.1 ≡ false) × (r.0 ≡ s)) ⊎ AdmitOutcome s job r
        → IsProperDyn r.0 × Scheduled job (dyn_jobs s) (dyn_jobs r.0) r.1
    promised r (inl (refused, same)) = rw same (v, inl (refused, λ k. refl))
    promised r (inr (inl (refused, same, _))) = rw same (v, inl (refused, λ k. refl))
    promised r (inr (inr (done, free, valid, views))) = (valid, inr (done, free, job.state, views))

pub schedule_remove_dyn-Unscheduled :
    (s : DynScheduler) (id : Str)
    → IsProperDyn s
    → Returns
        (λ r. IsProperDyn r.0 × Unscheduled id (dyn_jobs s) (dyn_jobs r.0) r.1)
        (schedule_remove_dyn s id)
unfolding schedule_remove_dyn
schedule_remove_dyn-Unscheduled s id v = elim (Option-cases (view s.monitor.schedule id)) [
  | inl unknown ↦
      rw
        (get_of_job-view (λ x. x.state) s.monitor.schedule id v
          ∙ ap (λ o. some (Option.map (λ (x : Job). x.state) o)) unknown)
        (returns (v, inl (refl, unknown, λ k. refl)))
  | inr (j, known) ↦
      rw
        (get_of_job-view (λ x. x.state) s.monitor.schedule id v
          ∙ ap (λ o. some (Option.map (λ (x : Job). x.state) o)) known)
        (Returns-bind (unregister_job_correct s.monitor (job_of_id id) v) λ (m, done) u.
          let (_, _, valid, _, _, _, _) = u in
          Returns-bind (remove_job_correct m.schedule id valid)
            λ r o. returns (forgotten j known m done u r o))
]
  where
    forgotten :
        (j : Job)
        → view s.monitor.schedule id ≡ some j
        → (m : JobMonitor) (done : Bool) → Unregistered s.monitor id (m, done)
        → (r : Schedule × Bool) → Removed m.schedule id r
        → IsValid r.0 × Unscheduled id (dyn_jobs s) (view r.0) r.1
    forgotten j known m done (_, _, valid, own, others, _, _) r (inl (_, _, gone)) =
        absurd (let no_job : ⊥ = ground (arith, own j known) in no_job)
    forgotten j known m done (_, _, valid, own, others, _, _) r (inr (_, _, ok, left, views, _)) = (
      left,
      inr (
        ok,
        (j, known),
        λ k. elim (Str-discrete id k) [
          | yes hit ↦ rw (views k, if_pos _ hit, if_pos _ hit)
          | no miss ↦ rw (views k, if_neg _ miss, if_neg _ miss) (others k miss)
        ],
      ),
    )

abbrev pub dyn_scheduler : JobScheduler
dyn_scheduler = record {
  Carrier = DynScheduler;
  IsProper = IsProperDyn;
  jobs = dyn_jobs;
  schedule = λ stack s job. schedule_job_dyn s job stack;
  schedule-Scheduled = schedule_job_dyn-Scheduled;
  remove = schedule_remove_dyn;
  remove-Unscheduled = schedule_remove_dyn-Unscheduled;
}
