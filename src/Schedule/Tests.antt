-- ===== src/Schedule/Tests.antt =====
-- Runs of the schedule.
use qos_planner.Common.{
  ◌≡◌, refl, List, [], ◌∷◌, Bool, true, false, none, some, str, Str-discrete, str_ltb, Returns,
}
use qos_planner.Common.Map.{find, assign, erase}
use qos_planner.Job.{Job, scheduled, done}
use qos_planner.Schedule.{
  empty, Schedule, deref, insert_by_start, insert_all, add_job, scan_copy, scan_osts, remove_job,
}
use qos_planner.Schedule.Valid.{Added, add_job_correct}
use qos_planner.Schedule.Remove.{Removed, remove_job_correct}
use qos_planner.Schedule.State.{Operation, add, remove, update, memory_schedule_state}
use qos_planner.Schedule.Session.{view_all, run_all, Observed, run_all-Observed}
use qos_planner.Schedule.Samples.{job_a, one_job, one_job-IsValid}

-- It starts earlier than `job_a`, on the same OST and on another one.
abbrev job_b : Job
job_b = record {
  state = scheduled;
  jobid = str "b";
  tstart = 5;
  tend = 15;
  osts = str "o1" ∷ str "o2" ∷ [];
  min_read_throughput = 60;
}

abbrev two_jobs : Schedule
two_jobs = record {
  store = some job_a ∷ some job_b ∷ [];
  schedule = (str "o1", 1 ∷ 0 ∷ []) ∷ (str "o2", 1 ∷ []) ∷ [];
  jobs = (str "a", 0) ∷ (str "b", 1) ∷ [];
}

add_second : add_job one_job (str "b") job_b job_b.osts ≡ some (two_jobs, true)
unfolding add_job insert_all insert_by_start deref find assign Str-discrete str_ltb
add_second = refl

remove_keeps_list : remove_job one_job (str "a") ≡ some (record one_job { jobs = [] }, true)
unfolding remove_job scan_osts scan_copy deref find assign erase Str-discrete
remove_keeps_list = refl

add_job_correct_example :
    Returns (Added one_job (str "b") job_b) (add_job one_job (str "b") job_b job_b.osts)
add_job_correct_example = add_job_correct one_job (str "b") job_b one_job-IsValid refl

remove_job_correct_example : Returns (Removed one_job (str "a")) (remove_job one_job (str "a"))
remove_job_correct_example = remove_job_correct one_job (str "a") one_job-IsValid

a_at_0 : find (str "a") one_job.jobs ≡ some 0
unfolding find Str-discrete
a_at_0 = refl

job_at_0 : deref one_job.store 0 ≡ some job_a
unfolding deref
job_at_0 = refl

-- A second job with an id in use is refused; a removed job cannot be updated.
abbrev calls : List Operation
calls =
    add job_a
    ∷ add (record job_b { jobid = str "a" })
    ∷ add job_b
    ∷ update (str "b") done
    ∷ remove (str "a")
    ∷ update (str "a") done
    ∷ []

run_all-Observed_example :
    let (jobs, results) = view_all calls (λ k. none) in
    Returns
      (λ (r : Schedule × List Bool). (r.1 ≡ results) × Observed memory_schedule_state jobs r.0)
      (run_all memory_schedule_state calls empty)
run_all-Observed_example = run_all-Observed calls

abbrev calls_results : List Bool
calls_results = true ∷ false ∷ true ∷ true ∷ true ∷ false ∷ []

results_of_calls : (view_all calls (λ k. none)).1 ≡ calls_results
unfolding Str-discrete
results_of_calls = refl
