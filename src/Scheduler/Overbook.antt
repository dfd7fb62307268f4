-- ===== src/Scheduler/Overbook.antt =====
-- The booked load in `ScheduleJob`, and `RemoveJob`, of the scheduler for static workloads.
use qos_planner.Common.{
  ℕ, ◌+◌, ◌%◌, ◌≡◌, ◌⊎◌, refl, sym, subst, List, [], ◌∷◌, Bool, true, false, none, some, ite,
  if_pos, if_neg, ◌>>=◌, Str, Str-discrete, arith, Option-cases, inl, inr, Returns, returns,
  Returns-bind, Returns-map,
}
use native.Mathlib.Nat.{zero-add}
use qos_planner.Common.Map.{find}
use qos_planner.Job.{Job, active, JobState-discrete, job_of_id}
use qos_planner.Schedule.{Schedule, get_ost_state, remove_job}
use qos_planner.Schedule.Valid.{IsValid, view}
use qos_planner.Schedule.View.{get_of_job-view}
use qos_planner.Schedule.Remove.{Removed, remove_job_correct}
use qos_planner.Rules.{uint32_range, remove_rules}
use qos_planner.Monitor.{JobMonitor}
use qos_planner.Monitor.Unregister.{Unregistered, unregister_job_correct}
use qos_planner.Scheduler.Load.{sum_load}
use qos_planner.Scheduler.Static.{
  Floats, StaticScheduler, are_enough_res_avail, schedule_job, schedule_remove,
}
use qos_planner.Scheduler.Admission.{Fits, Admitted, ScheduleOutcome, schedule_job_correct}

module _ (floats : Floats) where
  open floats use {Float, of_uint32, float_leb}

  -- On a valid schedule, a job for one OST with a free id is admitted although the load that is
  -- booked there for its time leaves no room for it, as soon as the uninitialised variable holds 0
  -- and the job alone is within the limit.
  pub schedule_job_overbooks :
      (s : StaticScheduler floats) (job : Job) (ost : Str) (limit : Float) (l : List ℕ) (load : ℕ)
      → IsValid s.monitor.schedule
      → job.osts ≡ ost ∷ []
      → view s.monitor.schedule job.jobid ≡ none
      → find ost s.osts_max_mbs_limits ≡ some limit
      → get_ost_state s.monitor.schedule ost ≡ some l
      → sum_load s.monitor.schedule.store job.tstart job.tend 0 l ≡ some load
      → float_leb (of_uint32 ((load + job.min_read_throughput) % uint32_range)) limit ≡ false
      → float_leb (of_uint32 (job.min_read_throughput % uint32_range)) limit ≡ true
      → Returns (λ r. (r.1 ≡ true) × Admitted floats s job r.0) (schedule_job floats s job (λ i. 0))
  schedule_job_overbooks s job ost limit l load v osts unknown known listed booked full alone =
      Returns-map (schedule_job_correct floats s job (λ i. 0) v) λ r o. outcome r o
    where
      fits : Fits floats s job (λ i. 0) (ost ∷ [])
      fits = (unfold are_enough_res_avail in ground (arith, zero-add job.min_read_throughput), tt)

      outcome :
          (r : StaticScheduler floats × Bool)
          → ScheduleOutcome floats s job (λ i. 0) r
          → (r.1 ≡ true) × Admitted floats s job r.0
      outcome r (inl (_, inl misfit)) =
          absurd (misfit (subst (Fits floats s job (λ i. 0)) (sym osts) fits))
      outcome r (inl (_, inr (j, e))) = absurd (let no_job : ⊥ = ground arith in no_job)
      outcome r (inr (done, _, _, a)) = (done, a)

  -- What RemoveJob of the scheduler returns: false and no change for an unknown id, and otherwise
  -- true, with the id unknown, every other job as it was, and the rules taken back if the job was
  -- active.
  abbrev pub RemoveOutcome : StaticScheduler floats → Str → StaticScheduler floats × Bool → Type 0
  RemoveOutcome s jobid r =
      ((r ≡ (s, false)) × (view s.monitor.schedule jobid ≡ none))
      ⊎ ((r.1 ≡ true)
          × ((j : Job) × (view s.monitor.schedule jobid ≡ some j)
              × (r.0.monitor.rules
                  ≡ ite (JobState-discrete j.state active) (remove_rules s.monitor.rules jobid).0
                      s.monitor.rules))
          × IsValid r.0.monitor.schedule
          × ((k : Str)
              → view r.0.monitor.schedule k
                ≡ ite (Str-discrete jobid k) none (view s.monitor.schedule k)))

  remove-known :
      (s : StaticScheduler floats) (jobid : Str) (j : Job) (m : JobMonitor) (done : Bool)
      → view s.monitor.schedule jobid ≡ some j
      → Unregistered s.monitor jobid (m, done)
      → Returns (RemoveOutcome s jobid) (
          remove_job m.schedule jobid >>= λ (schedule, removed).
          some (record s { monitor = record m { schedule = schedule } }, removed))
  remove-known s jobid j m done known (_, _, valid, own, others, _, rules) =
      Returns-bind (remove_job_correct m.schedule jobid valid) λ r o. finish r o
    where
      finish :
          (r : Schedule × Bool)
          → Removed m.schedule jobid r
          → Returns
              (RemoveOutcome s jobid)
              (some (record s { monitor = record m { schedule = r.0 } }, r.1))
      finish r (inl (_, _, gone)) = absurd (let no_job : ⊥ = ground (arith, own j known) in no_job)
      finish r (inr (_, _, ok, left, views, _)) = returns (
          inr (
            ok,
            (j, known, rules j known),
            left,
            λ k. elim (Str-discrete jobid k) [
              | yes hit ↦ rw (views k, if_pos _ hit, if_pos _ hit)
              | no miss ↦ rw (views k, if_neg _ miss, if_neg _ miss) (others k miss)
            ],
          ))

  -- On a valid schedule RemoveJob of the scheduler always returns; it changes nothing for an
  -- unknown id, and otherwise makes the id unknown, takes the rules of the job back exactly if it
  -- was active, and leaves every other job as it was.
  pub schedule_remove_correct :
      (s : StaticScheduler floats) (jobid : Str)
      → IsValid s.monitor.schedule
      → Returns (RemoveOutcome s jobid) (schedule_remove floats s jobid)
  unfolding schedule_remove
  schedule_remove_correct s jobid v = elim (Option-cases (view s.monitor.schedule jobid)) [
    | inl unknown ↦
        rw (get_of_job-view (λ x. x.state) s.monitor.schedule jobid v, unknown)
          (returns (inl (refl, unknown)))
    | inr (j, known) ↦
        rw (get_of_job-view (λ x. x.state) s.monitor.schedule jobid v, known)
          (Returns-bind (unregister_job_correct s.monitor (job_of_id jobid) v)
            λ (m, done) u. remove-known s jobid j m done known u)
  ]
