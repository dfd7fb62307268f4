-- ===== src/Monitor.antt =====
-- src/common/JobMonitor.h and .cpp: starting and stopping jobs at their times. A function returns
-- the monitor's new state beside its result; the schedule and the rule manager, which the class
-- holds by pointer, are part of that state, and `calls` is the trace of the calls to rule setters.
-- `none` is undefined behaviour of the queue or of the schedule, or, for the loop, that the fuel
-- ran out. The waiting on in-flight jobs is in Monitor/Threads; here each call runs undisturbed.
pub mod Threads
pub mod Ready
pub mod Start
pub mod Stop
pub mod Unregister
pub mod Loop
pub mod Lifetime
mod Tests
use qos_planner.Common.{
  ℕ, zero, suc, List, [], ◌∷◌, ◌++◌, Bool, true, false, Option, none, some, ite, ltb, if◌then◌else◌,
  ◌>>=◌, Str,
}
use qos_planner.Job.{
  Job, JobEvent, jobstart, jobstop, JobState, initialized, scheduled, active, done,
  JobState-discrete,
}
use qos_planner.Queue.{WaitingItem, Heap, push, pop, remove, peek}
use qos_planner.Schedule.{
  Schedule, remove_job, update_job, get_job_throughput, get_job_status, get_job_end,
  get_job_ost_ids, get_all_jobs,
}
use qos_planner.Lustre.{Lustre}
use qos_planner.Rules.{RuleManager, NrsCall, set_rules, remove_rules}

-- `JobMonitor`
pub record JobMonitor : Type 0 where
  pub thread_started : Bool
  pub queue : Heap
  pub schedule : Schedule
  pub rules : RuleManager
  pub calls : List NrsCall

-- The outside of one call: the answers of Lustre and of the rule setters, and the order in which a
-- hash map is visited.
pub record World : Type 0 where
  pub lustre : Lustre
  pub result : NrsCall → Bool
  pub order : List (Str × ℕ) → List (Str × ℕ)

abbrev pub item : Str → ℕ → JobEvent → WaitingItem
item jobid time event = record { jobid = jobid; time_of_event = time; event_type = event }

-- `RegisterJob`
unfoldable pub register_job : JobMonitor → Job → Option (JobMonitor × Bool)
unfolding push
register_job m job = do
  q ← push m.queue (item job.jobid job.tstart jobstart)
  some (record m { queue = q }, true)

-- `isThereAReadyJob` at the time `now`.
unfoldable pub is_there_a_ready_job : Heap → ℕ → Bool
unfolding peek
is_there_a_ready_job q now = elim (peek q) [ none ↦ false | some top ↦ ltb top.time_of_event now ]

abbrev or_no_osts : Option (List Str) → List Str
or_no_osts none = []
or_no_osts (some osts) = osts

-- `SetNrsRules`
unfoldable pub set_nrs_rules : World → JobMonitor → Str → Option (JobMonitor × Bool)
set_nrs_rules w m jobid = get_job_throughput m.schedule jobid >>= λ requested. elim requested [
  | none ↦ some (m, false)
  | some mbs ↦ get_job_ost_ids m.schedule jobid >>= λ osts.
      let (rules, set, sent) =
        set_rules w.lustre w.result w.order m.rules (or_no_osts osts) jobid mbs in
      some (record m { rules = rules; calls = m.calls ++ sent }, set)
]

-- The end of `StartJob`: the waiting item for the stop.
unfoldable pub push_stop : JobMonitor → Str → Option (JobMonitor × Bool)
push_stop m jobid = get_job_end m.schedule jobid >>= λ end. elim end [
  | none ↦ some (m, false)
  | some tend ↦ push m.queue (item jobid tend jobstop) >>= λ q. some (record m { queue = q }, true)
]

-- `StartJob` from the setting of the rules on.
unfoldable pub start_scheduled : World → JobMonitor → Str → Option (JobMonitor × Bool)
unfolding set_nrs_rules push_stop
start_scheduled w m jobid = set_nrs_rules w m jobid >>= λ (m1, set).
    let activated = update_job m1.schedule jobid active >>= λ (s, updated).
    let m2 = record m1 { schedule = s } in
    if updated then push_stop m2 jobid else some (m2, false) in
    if set then activated else some (m1, false)

-- `StartJob`
unfoldable pub start_job : World → JobMonitor → Str → Option (JobMonitor × Bool)
unfolding start_scheduled
start_job w m jobid = get_job_status m.schedule jobid >>= λ status. elim status [
  | none ↦ some (m, false)
  | some st ↦ ite (JobState-discrete st scheduled) (start_scheduled w m jobid) (some (m, false))
]

-- `StopJob` from the removal of the rules on; whether that succeeds makes no difference.
unfoldable pub stop_active : JobMonitor → Str → Option (JobMonitor × Bool)
stop_active m jobid =
    let (rules, removed, sent) = remove_rules m.rules jobid in
    update_job m.schedule jobid done >>= λ (s, updated).
    some (record m { rules = rules; calls = m.calls ++ sent; schedule = s }, updated)

-- `StopJob`
unfoldable pub stop_job : JobMonitor → Str → Option (JobMonitor × Bool)
unfolding stop_active
stop_job m jobid = get_job_status m.schedule jobid >>= λ status. elim status [
  | none ↦ some (m, false)
  | some st ↦ ite (JobState-discrete st active) (stop_active m jobid) (some (m, false))
]

-- `Handle`, between the wait for the job and its release.
unfoldable pub handle : World → JobMonitor → Str → JobEvent → Option JobMonitor
unfolding start_job stop_job
handle w m jobid jobstart = start_job w m jobid >>= λ (m', started). some m'
handle w m jobid jobstop = stop_job m jobid >>= λ (m', stopped).
    remove_job m'.schedule jobid >>= λ (s, removed). some (record m' { schedule = s })

-- `UnregisterJob`
unfoldable pub unregister_job : JobMonitor → Job → Option (JobMonitor × Bool)
unfolding remove stop_job
unregister_job m job = remove m.queue job.jobid >>= λ (removed, q).
    let m' = record m { queue = q } in
    get_job_status m.schedule job.jobid >>= λ status. elim status [
      | none ↦ some (m', true)
      | some st ↦ ite (JobState-discrete st active) (stop_job m' job.jobid) (some (m', true))
    ]

-- The waiting item of a job that is already there.
unfoldable pub existing_item : Job → Option WaitingItem
existing_item j = elim j.state [
  | scheduled ↦ some (item j.jobid j.tstart jobstart)
  | active ↦ some (item j.jobid j.tend jobstop)
  | initialized ↦ none
  | done ↦ none
]

-- The loop of `FillWithExistingJobs`.
unfoldable pub push_existing : List (Str × Job) → Heap → Option Heap
unfolding existing_item push
push_existing [] q = some q
push_existing ((id, j) ∷ jobs) q = elim (existing_item j) [
  | none ↦ push_existing jobs q
  | some x ↦ push q x >>= λ q'. push_existing jobs q'
]

-- `FillWithExistingJobs`
unfoldable pub fill_with_existing_jobs : JobMonitor → Option JobMonitor
unfolding push_existing
fill_with_existing_jobs m = do
  jobs ← get_all_jobs m.schedule
  q ← push_existing jobs m.queue
  some (record m { queue = q })

-- `Init`; its pointers are never null here.
unfoldable pub init : JobMonitor → Option (JobMonitor × Bool)
unfolding fill_with_existing_jobs
init m = do
  m' ← fill_with_existing_jobs m
  if m.thread_started then some (m', false) else some (record m' { thread_started = true }, true)

-- The inner loop of `Monitor`, with the clock's readings at its tests.
unfoldable pub monitor_loop : ℕ → World → (ℕ → ℕ) → JobMonitor → Option JobMonitor
unfolding is_there_a_ready_job pop handle
monitor_loop zero w clock m = none
monitor_loop (suc fuel) w clock m =
    let round = pop m.queue >>= λ (front, q). elim front [
      | none ↦ none
      | some x ↦ handle w (record m { queue = q }) x.jobid x.event_type >>= λ m'.
          monitor_loop fuel w (λ i. clock (suc i)) m'
    ] in
    if is_there_a_ready_job m.queue (clock 0) then round else some m
