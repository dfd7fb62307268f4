-- ===== src/Scheduler/Tests.antt =====
-- Runs of the schedulers.
use qos_planner.Common.{
  ◌≡◌, refl, List, [], ◌∷◌, true, false, none, some, str, Str-discrete, Returns,
}
use qos_planner.Common.Map.{find}
use qos_planner.Job.{Job, initialized}
use qos_planner.Schedule.{deref, get_ost_state}
use qos_planner.Schedule.Valid.{view}
use qos_planner.Schedule.Samples.{one_job, one_job-IsValid}
use qos_planner.Monitor.{World, start_job}
use qos_planner.Scheduler.Samples.{whole, monitor, scheduler}
use qos_planner.Scheduler.Load.{sum_load}
use qos_planner.Scheduler.Static.{schedule_job}
use qos_planner.Scheduler.Admission.{ScheduleOutcome, Admitted, schedule_job_correct}
use qos_planner.Scheduler.Overbook.{schedule_job_overbooks}
use qos_planner.Scheduler.Limits.{
  LimitElement, missing, mistyped, read, init, limit_in, LimitsRead, init-limits,
}
use qos_planner.Scheduler.Interface.{static_scheduler, dyn_scheduler}
use qos_planner.Scheduler.Session.{
  Call, schedule, remove, run_calls, CallsOutcome, schedulers_keep_jobs,
}
use qos_planner.Scheduler.Dynamic.{DynScheduler, schedule_job_dyn, schedule_job_dyn-never_starts}

-- It asks for 60 MB/s at the same time.
abbrev job_c : Job
job_c = record {
  state = initialized;
  jobid = str "c";
  tstart = 12;
  tend = 18;
  osts = str "o1" ∷ [];
  min_read_throughput = 60;
}

schedule_job_correct_example :
    Returns
      (ScheduleOutcome whole scheduler job_c (λ i. 0))
      (schedule_job whole scheduler job_c (λ i. 0))
schedule_job_correct_example = schedule_job_correct whole scheduler job_c (λ i. 0) one_job-IsValid

unknown_c : view one_job (str "c") ≡ none
unfolding view deref find Str-discrete
unknown_c = refl

limit_o1 : find (str "o1") scheduler.osts_max_mbs_limits ≡ some 100
unfolding find Str-discrete
limit_o1 = refl

list_o1 : get_ost_state one_job (str "o1") ≡ some (0 ∷ [])
unfolding get_ost_state find Str-discrete
list_o1 = refl

load_o1 : sum_load one_job.store 12 18 0 (0 ∷ []) ≡ some 60
unfolding sum_load deref
load_o1 = refl

schedule_job_overbooks_example :
    Returns
      (λ r. (r.1 ≡ true) × Admitted whole scheduler job_c r.0)
      (schedule_job whole scheduler job_c (λ i. 0))
schedule_job_overbooks_example =
    schedule_job_overbooks whole scheduler job_c (str "o1") 100 (0 ∷ []) 60 one_job-IsValid refl
      unknown_c limit_o1 list_o1 load_o1 refl refl

abbrev measured : DynScheduler
measured = record {
  monitor = monitor;
  cluster = record {
    ost_state_map =
        (str "o1", record { ost = str "u1"; current_rpc_sec = 0; max_rpc_sec = 500 }) ∷ [];
    update_thread_started = true;
  };
}

schedule_job_dyn-never_starts_example :
    Returns
      (λ r.
        r.1 ≡ true
        → (view r.0.monitor.schedule (str "c") ≡ some job_c)
          × ((w : World) → start_job w r.0.monitor (str "c") ≡ some (r.0.monitor, false)))
      (schedule_job_dyn measured job_c (λ i. 0))
schedule_job_dyn-never_starts_example =
    schedule_job_dyn-never_starts measured job_c (λ i. 0) one_job-IsValid refl

-- A file with two limits for "o1", an element without a limit and one without a name.
abbrev file : List (LimitElement whole)
file =
    record { name = read (str "o1"); max_mbs = read 7 }
    ∷ record { name = read (str "o1"); max_mbs = read 9 }
    ∷ record { name = read (str "o1"); max_mbs = missing }
    ∷ record { name = missing; max_mbs = read 5 }
    ∷ []

limit_of_o1 : limit_in whole (str "o1") file ≡ some 9
unfolding limit_in Str-discrete
limit_of_o1 = refl

init-limits_example :
    (init whole scheduler none ≡ some (scheduler, true))
    × (init whole scheduler (some none) ≡ some (scheduler, false))
    × LimitsRead whole scheduler file (init whole scheduler (some (some file)))
init-limits_example = init-limits whole scheduler file

-- A name that is not a text ends in an exception.
mistyped_name :
    init whole scheduler (some (some (record { name = mistyped; max_mbs = read 7 } ∷ []))) ≡ none
unfolding init
mistyped_name = refl

abbrev calls : List Call
calls = schedule (λ i. 0) job_c ∷ remove (str "a") ∷ []

schedulers_keep_jobs_example :
    Returns
      (CallsOutcome (static_scheduler whole) calls scheduler)
      (run_calls (static_scheduler whole) calls scheduler)
    × Returns (CallsOutcome dyn_scheduler calls measured) (run_calls dyn_scheduler calls measured)
schedulers_keep_jobs_example =
    schedulers_keep_jobs whole calls scheduler measured one_job-IsValid one_job-IsValid
