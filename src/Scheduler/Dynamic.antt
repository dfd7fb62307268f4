-- ===== src/Scheduler/Dynamic.antt =====
-- src/common/JobSchedulerDynWorkloads.h and .cpp: admission against the measured rate of each OST.
-- `scheduler_mut_` is held throughout ScheduleJob.
use qos_planner.Common.{
  ℕ, suc, ◌+◌, ◌*◌, ◌/◌, ◌%◌, ◌≡◌, refl, List, [], ◌∷◌, ite, ◌⊎◌, Str-discrete, Bool, true, false,
  Option, none, some, ◌>>=◌, inl, inr, if◌then◌else◌, Str, leb, arith, Returns, returns,
  Returns-bind, Returns-map, Option-cases, Bool-cases, Returns-inv, ap, ◌∙◌,
}
use qos_planner.Job.{Job, job_of_id, initialized}
use qos_planner.Schedule.{Schedule, add_job, remove_job, get_job_status}
use qos_planner.Schedule.Valid.{IsValid, view, Added, add_job_correct}
use qos_planner.Rules.{uint32_range}
use qos_planner.Monitor.{JobMonitor, World, register_job, unregister_job, start_job}
use qos_planner.Monitor.Ready.{register_job-Registered}
use qos_planner.Monitor.Start.{StartOutcome, start_job_correct}
use qos_planner.Cluster.{ClusterState, OstWorkload, get_ost_workload}
use qos_planner.Scheduler.Load.{get_max_load, get_max_load-out}

-- `LocalLustre`'s conversions between MB/s and RPCs/s, for its `max_rpc_size_`.
unfoldable pub mbs_to_rpcs : ℕ → ℕ → ℕ
mbs_to_rpcs max_rpc_size mb_per_sec = mb_per_sec / max_rpc_size

unfoldable pub rpcs_to_mbs : ℕ → ℕ → ℕ
rpcs_to_mbs max_rpc_size rpc_per_sec = (rpc_per_sec * max_rpc_size) % uint32_range

-- The constructor of `LocalLustre`: 1 MB.
abbrev pub max_rpc_size : ℕ
max_rpc_size = 1

-- `JobSchedulerDynWorkloads`
pub record DynScheduler : Type 0 where
  pub monitor : JobMonitor
  pub cluster : ClusterState

-- `GetMaxLoadInTimeInterval`: no value for an OST that the cluster does not know.
unfoldable pub get_max_load_dyn : DynScheduler → Str → ℕ → ℕ → ℕ → Option (Option ℕ)
unfolding get_max_load
get_max_load_dyn s ost start end out = elim (get_ost_workload s.cluster ost) [
  | none ↦ some none
  | some node ↦ get_max_load s.monitor.schedule ost start end out >>= λ load. some (some load)
]

-- `AreEnoughResAvail`
unfoldable pub are_enough_res_avail_dyn : Job → ℕ → OstWorkload → Bool
unfolding rpcs_to_mbs
are_enough_res_avail_dyn job max_ost_mb_sec node =
    leb ((max_ost_mb_sec + job.min_read_throughput) % uint32_range)
      (rpcs_to_mbs max_rpc_size node.max_rpc_sec)

-- The loop of `ScheduleJob`; `stack` as for the other scheduler.
unfoldable pub check_osts_dyn : DynScheduler → Job → (ℕ → ℕ) → List Str → Option Bool
unfolding get_max_load_dyn are_enough_res_avail_dyn
check_osts_dyn s job stack [] = some true
check_osts_dyn s job stack (ost ∷ osts) =
    get_max_load_dyn s ost job.tstart job.tend (stack 0) >>= λ answer.
    let rest = check_osts_dyn s job (λ i. stack (suc i)) osts in
    elim answer [
      | none ↦ some false
      | some load ↦ elim (get_ost_workload s.cluster ost) [
        | none ↦ some false
        | some node ↦ if are_enough_res_avail_dyn job load node then rest else some false
      ]
    ]

-- `ScheduleJob` behind its loop.
unfoldable pub admit_dyn : DynScheduler → Job → Option (DynScheduler × Bool)
unfolding add_job register_job remove_job
admit_dyn s job = add_job s.monitor.schedule job.jobid job job.osts >>= λ (schedule, added).
    let m = record s.monitor { schedule = schedule } in
    let registration = register_job m job >>= λ (m', registered).
    let undo = remove_job m'.schedule job.jobid >>= λ (schedule', removed).
    some (record s { monitor = record m' { schedule = schedule' } }, false) in
    if registered then some (record s { monitor = m' }, true) else undo in
    if added then registration else some (record s { monitor = m }, false)

-- `ScheduleJob`
unfoldable pub schedule_job_dyn : DynScheduler → Job → (ℕ → ℕ) → Option (DynScheduler × Bool)
unfolding check_osts_dyn admit_dyn
schedule_job_dyn s job stack = check_osts_dyn s job stack job.osts >>= λ fits.
    if fits then admit_dyn s job else some (s, false)

-- `RemoveJob`
unfoldable pub schedule_remove_dyn : DynScheduler → Str → Option (DynScheduler × Bool)
unfolding get_job_status unregister_job remove_job
schedule_remove_dyn s jobid = get_job_status s.monitor.schedule jobid >>= λ status. elim status [
  | none ↦ some (s, false)
  | some st ↦ unregister_job s.monitor (job_of_id jobid) >>= λ (m, unregistered).
      remove_job m.schedule jobid >>= λ (schedule, removed).
      some (record s { monitor = record m { schedule = schedule } }, removed)
]

-- What an admission comes to: nothing for an id in use, and otherwise the job as it is.
abbrev pub AdmitOutcome : DynScheduler → Job → DynScheduler × Bool → Type 0
AdmitOutcome s job r =
    ((r.1 ≡ false) × (r.0 ≡ s) × ((j : Job) × (view s.monitor.schedule job.jobid ≡ some j)))
    ⊎ ((r.1 ≡ true)
        × (view s.monitor.schedule job.jobid ≡ none)
        × IsValid r.0.monitor.schedule
        × ((k : Str)
            → view r.0.monitor.schedule k
              ≡ ite (Str-discrete job.jobid k) (some job) (view s.monitor.schedule k)))

admit_dyn-outcome :
    (s : DynScheduler) (job : Job)
    → IsValid s.monitor.schedule
    → Returns (AdmitOutcome s job) (admit_dyn s job)
unfolding admit_dyn register_job
admit_dyn-outcome s job v =
    Returns-bind (add_job_correct s.monitor.schedule job.jobid job v refl) λ r o. finish r o
  where
    finish :
        (r : Schedule × Bool)
        → Added s.monitor.schedule job.jobid job r
        → Returns (AdmitOutcome s job) (
            let m = record s.monitor { schedule = r.0 } in
            let registration = register_job m job >>= λ (m', registered).
            let undo = remove_job m'.schedule job.jobid >>= λ (schedule', removed).
            some (record s { monitor = record m' { schedule = schedule' } }, false) in
            if registered then some (record s { monitor = m' }, true) else undo in
            if r.1 then registration else some (record s { monitor = m }, false))
    finish r (inl (refused, same, known)) = rw (refused, same) (returns (inl (refl, refl, known)))
    finish r (inr (added, unknown, valid, states, _)) = rw added (
        Returns-bind (register_job-Registered (record s.monitor { schedule = r.0 }) job) λ x g.
          rw g.succeeded
            (returns (inr (refl, unknown, rw g.schedule valid, λ k. rw g.schedule (states k)))))

check_osts_dyn-ends :
    (s : DynScheduler) (job : Job) (stack : ℕ → ℕ) (osts : List Str)
    → IsValid s.monitor.schedule
    → (b : Bool) × (check_osts_dyn s job stack osts ≡ some b)
unfolding check_osts_dyn
check_osts_dyn-ends s job stack [] v = (true, refl)
check_osts_dyn-ends s job stack (ost ∷ osts) v =
    elim (Option-cases (get_ost_workload s.cluster ost)) [
      | inl unknown ↦ (false, ground arith)
      | inr (node, e) ↦
          let (b, rest) = check_osts_dyn-ends s job (λ i. stack (suc i)) osts v in
          let out = get_max_load-out s.monitor.schedule ost job.tstart job.tend (stack 0) v in
          answer node e b rest _ out
    ]
  where
    answer :
        (node : OstWorkload)
        → get_ost_workload s.cluster ost ≡ some node
        → (b : Bool) → check_osts_dyn s job (λ i. stack (suc i)) osts ≡ some b
        → (load : ℕ) → get_max_load s.monitor.schedule ost job.tstart job.tend (stack 0) ≡ some load
        → (b' : Bool) × (check_osts_dyn s job stack (ost ∷ osts) ≡ some b')
    answer node e b rest load out = elim (Bool-cases (are_enough_res_avail_dyn job load node)) [
      | inl room ↦ (b, ground arith)
      | inr full ↦ (false, ground arith)
    ]

-- ScheduleJob leaves the scheduler alone, or does what the admission does.
pub schedule_job_dyn-outcome :
    (s : DynScheduler) (job : Job) (stack : ℕ → ℕ)
    → IsValid s.monitor.schedule
    → Returns
        (λ r. ((r.1 ≡ false) × (r.0 ≡ s)) ⊎ AdmitOutcome s job r)
        (schedule_job_dyn s job stack)
unfolding schedule_job_dyn
schedule_job_dyn-outcome s job stack v =
    let (fits, e) = check_osts_dyn-ends s job stack job.osts v in
    rw e (elim (Bool-cases fits) [
      | inr misfit ↦ rw misfit (returns (inl (refl, refl)))
      | inl room ↦ rw room (Returns-map (admit_dyn-outcome s job v) λ r o. inr o)
    ])

-- StartJob does nothing for a job that is initialized.
not_started :
    (w : World) (m : JobMonitor) (job : Job)
    → job.state ≡ initialized
    → IsValid m.schedule
    → view m.schedule job.jobid ≡ some job
    → start_job w m job.jobid ≡ some (m, false)
not_started w m job fresh valid known =
    let (r, run, o) = Returns-inv (start_job_correct w m job.jobid valid) in not_ready r run o
  where
    not_ready :
        (r : JobMonitor × Bool)
        → start_job w m job.jobid ≡ some r
        → StartOutcome w m job.jobid r
        → start_job w m job.jobid ≡ some (m, false)
    not_ready r run (inl (same, _)) = run ∙ ap some same
    not_ready r run (inr (j, found, ready, _)) = absurd (let no_job : ⊥ = ground arith in no_job)

-- On a valid schedule the scheduler for dynamic workloads always returns, and leaves the state of a
-- job alone: an initialized job that it admits is not started by StartJob.
pub schedule_job_dyn-never_starts :
    (s : DynScheduler) (job : Job) (stack : ℕ → ℕ)
    → IsValid s.monitor.schedule
    → job.state ≡ initialized
    → Returns
        (λ r.
          r.1 ≡ true
          → (view r.0.monitor.schedule job.jobid ≡ some job)
            × ((w : World) → start_job w r.0.monitor job.jobid ≡ some (r.0.monitor, false)))
        (schedule_job_dyn s job stack)
schedule_job_dyn-never_starts s job stack v fresh =
    Returns-map (schedule_job_dyn-outcome s job stack v) λ r o done. admitted r o done
  where
    admitted :
        (r : DynScheduler × Bool)
        → ((r.1 ≡ false) × (r.0 ≡ s)) ⊎ AdmitOutcome s job r
        → r.1 ≡ true
        → (view r.0.monitor.schedule job.jobid ≡ some job)
          × ((w : World) → start_job w r.0.monitor job.jobid ≡ some (r.0.monitor, false))
    admitted r (inl (refused, _)) done = absurd (let no : ⊥ = cc in no)
    admitted r (inr (inl (refused, _, _))) done = absurd (let no : ⊥ = cc in no)
    admitted r (inr (inr (_, _, valid, views))) done =
        let known : view r.0.monitor.schedule job.jobid ≡ some job =
          ground (arith, views job.jobid) in
        (known, λ w. not_started w r.0.monitor job fresh valid known)
