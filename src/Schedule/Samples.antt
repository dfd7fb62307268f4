-- ===== src/Schedule/Samples.antt =====
-- A valid schedule with one scheduled job, which the tests of several components start from.
use qos_planner.Common.{
  ◌≡◌, refl, [], ◌∷◌, true, some, Str, str, Str-discrete, inl, inr, Returns-at,
}
use qos_planner.Common.Map.{find, assign}
use qos_planner.Job.{Job, JobState, scheduled, active}
use qos_planner.Schedule.{Schedule, empty, deref, insert_by_start, insert_all, add_job, update_job}
use qos_planner.Schedule.Valid.{IsValid, view, empty-IsValid, Added, add_job_correct}
use qos_planner.Schedule.Update.{Updated, update_job_correct}

abbrev pub job_a : Job
job_a = record {
  state = scheduled;
  jobid = str "a";
  tstart = 10;
  tend = 20;
  osts = str "o1" ∷ [];
  min_read_throughput = 60;
}

abbrev pub one_job : Schedule
one_job = record {
  store = some job_a ∷ [];
  schedule = (str "o1", 0 ∷ []) ∷ [];
  jobs = (str "a", 0) ∷ [];
}

add_job_a : add_job empty (str "a") job_a job_a.osts ≡ some (one_job, true)
unfolding add_job insert_all insert_by_start deref find assign Str-discrete
add_job_a = refl

Added-IsValid :
    (s : Schedule) (jobid : Str) (job : Job) (s' : Schedule)
    → Added s jobid job (s', true)
    → IsValid s'
Added-IsValid s jobid job s' (inl (refused, _, _)) = cc
Added-IsValid s jobid job s' (inr (_, _, valid, _, _)) = valid

pub one_job-IsValid : IsValid one_job
one_job-IsValid =
    Added-IsValid empty (str "a") job_a one_job
      (Returns-at (add_job_correct empty (str "a") job_a empty-IsValid refl) add_job_a)

-- The job has been started.
abbrev pub active_job : Schedule
active_job = record one_job { store = some (record job_a { state = active }) ∷ [] }

update_job_a : update_job one_job (str "a") active ≡ some (active_job, true)
unfolding update_job deref find Str-discrete
update_job_a = refl

Updated-IsValid :
    (s : Schedule) (jobid : Str) (st : JobState) (s' : Schedule)
    → Updated s jobid st (s', true)
    → IsValid s'
Updated-IsValid s jobid st s' (inl (refused, _, _)) = cc
Updated-IsValid s jobid st s' (inr (_, _, _, valid, _, _)) = valid

pub active_job-IsValid : IsValid active_job
active_job-IsValid =
    Updated-IsValid one_job (str "a") active active_job
      (Returns-at (update_job_correct one_job (str "a") active one_job-IsValid) update_job_a)

pub view-one_job : view one_job (str "a") ≡ some job_a
unfolding view deref find Str-discrete
view-one_job = refl
