-- ===== src/Scheduler/Static.antt =====
-- src/common/JobSchedulerStaticWorkloads.h and .cpp: admission against a fixed limit for each OST.
-- `scheduler_mut_` is held throughout ScheduleJob. The limits are `float`s: the type, the conversion
-- from uint32 and the comparison are parameters.
use qos_planner.Common.{
  ℕ, suc, ◌+◌, ◌%◌, List, [], ◌∷◌, Bool, true, false, Option, none, some, ◌>>=◌, if◌then◌else◌, Str,
}
use qos_planner.Common.Map.{find, assign}
use qos_planner.Job.{Job, job_of_id, set_state, scheduled}
use qos_planner.Schedule.{add_job, remove_job, get_job_status}
use qos_planner.Rules.{uint32_range}
use qos_planner.Monitor.{JobMonitor, register_job, unregister_job}
use qos_planner.Scheduler.Load.{get_max_load}

-- Single-precision numbers: the conversion from uint32, and `<=`.
pub record Floats : Type 1 where
  pub Float : Type 0
  pub of_uint32 : ℕ → Float
  pub float_leb : Float → Float → Bool

module _ (floats : Floats) where
  open floats use {Float, of_uint32, float_leb}

  -- `JobSchedulerStaticWorkloads`, with the monitor and, inside it, the schedule.
  pub record StaticScheduler : Type 0 where
    pub monitor : JobMonitor
    pub osts_max_mbs_limits : List (Str × Float)

  -- `AreEnoughResAvail`
  unfoldable pub are_enough_res_avail : List (Str × Float) → Job → Str → ℕ → Bool
  are_enough_res_avail limits job ost max_ost_mb_sec = elim (find ost limits) [
    | none ↦ false
    | some limit ↦
        float_leb (of_uint32 ((max_ost_mb_sec + job.min_read_throughput) % uint32_range)) limit
  ]

  -- The loop of `ScheduleJob`. `stack i` is what the uninitialised `max_ost_mb_sec` of the i-th
  -- round happens to hold.
  unfoldable pub check_osts : StaticScheduler → Job → (ℕ → ℕ) → List Str → Option Bool
  unfolding get_max_load are_enough_res_avail
  check_osts s job stack [] = some true
  check_osts s job stack (ost ∷ osts) =
      get_max_load s.monitor.schedule ost job.tstart job.tend (stack 0) >>= λ load.
      let rest = check_osts s job (λ i. stack (suc i)) osts in
      if are_enough_res_avail s.osts_max_mbs_limits job ost load then rest else some false

  -- `ScheduleJob` behind its loop.
  unfoldable pub admit : StaticScheduler → Job → Option (StaticScheduler × Bool)
  unfolding add_job register_job remove_job
  admit s job =
      let job' = set_state scheduled job in
      add_job s.monitor.schedule job'.jobid job' job'.osts >>= λ (schedule, added).
      let m = record s.monitor { schedule = schedule } in
      let registration = register_job m job' >>= λ (m', registered).
      let undo = remove_job m'.schedule job'.jobid >>= λ (schedule', removed).
      some (record s { monitor = record m' { schedule = schedule' } }, false) in
      if registered then some (record s { monitor = m' }, true) else undo in
      if added then registration else some (record s { monitor = m }, false)

  -- `ScheduleJob`
  unfoldable pub schedule_job : StaticScheduler → Job → (ℕ → ℕ) → Option (StaticScheduler × Bool)
  unfolding check_osts admit
  schedule_job s job stack =
      check_osts s job stack job.osts >>= λ fits. if fits then admit s job else some (s, false)

  -- `RemoveJob`
  unfoldable pub schedule_remove : StaticScheduler → Str → Option (StaticScheduler × Bool)
  unfolding get_job_status unregister_job remove_job
  schedule_remove s jobid = get_job_status s.monitor.schedule jobid >>= λ status. elim status [
    | none ↦ some (s, false)
    | some st ↦ unregister_job s.monitor (job_of_id jobid) >>= λ (m, unregistered).
        remove_job m.schedule jobid >>= λ (schedule, removed).
        some (record s { monitor = record m { schedule = schedule } }, removed)
  ]

  -- The insertion of `UpdateLimits`.
  unfoldable pub limits_of : List (Str × ℕ) → List (Str × Float) → List (Str × Float)
  limits_of [] limits = limits
  limits_of ((ost, mbs) ∷ new) limits = limits_of new (assign ost (of_uint32 mbs) limits)

  -- `UpdateLimits`
  unfoldable pub update_limits : StaticScheduler → List (Str × ℕ) → StaticScheduler
  unfolding limits_of
  update_limits s new = record s { osts_max_mbs_limits = limits_of new [] }
