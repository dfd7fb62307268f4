-- ===== src/Planner.antt =====
-- src/common/Planner.h and .cpp: the requests of clients. The planner's state is that of its
-- scheduler, which holds the monitor and the schedule. A request returns that state, the result of
-- the call, and the reply if one is set. `none` is undefined behaviour (of the parts, or an end time
-- out of range), or an exception that leaves the planner.
pub mod Submission
pub mod Removal
pub mod Listing
pub mod Lifecycle
mod Tests
use qos_planner.Common.{
  ℕ, zero, suc, ◌+◌, ◌*◌, ◌-◌, ◌^◌, List, [], ◌∷◌, ◌++◌, Bool, true, false, Option, none, some, leb,
  if◌then◌else◌, ◌>>=◌, Str, str,
}
use qos_planner.Job.{Job, job_of_id, new_job, initialized, set_state, set_osts}
use qos_planner.Formatter.{format}
use qos_planner.Schedule.{remove_job, get_all_jobs}
use qos_planner.Lustre.{Lustre}
use qos_planner.Rules.{is_empty}
use qos_planner.Monitor.{unregister_job}
use qos_planner.Monitor.Threads.{member}
use qos_planner.Message.{ℤ, pos, negsuc, to_uint32, ResourceRequest, Reply}
use qos_planner.Scheduler.Static.{Floats, StaticScheduler, schedule_job}

-- `std::chrono::system_clock`, in nanoseconds of 64 bits.
abbrev pub ticks_per_second : ℕ
ticks_per_second = 10 ^ 9

abbrev pub time_max : ℕ
time_max = 2 ^ 63 - 1

-- The insertion of the OSTs of one file into `osts_set`.
unfoldable pub insert_osts : List Str → List Str → List Str
unfolding member
insert_osts [] osts_set = osts_set
insert_osts (ost ∷ osts) osts_set =
    insert_osts osts (if member ost osts_set then osts_set else osts_set ++ ost ∷ [])

-- `tryComputeOstSetOfRequest`: `none` for false.
unfoldable pub try_compute_ost_set : Lustre → List Str → List Str → Option (List Str)
unfolding insert_osts
try_compute_ost_set lustre [] osts_set = some osts_set
try_compute_ost_set lustre (file ∷ files) osts_set = lustre.get_osts_for_file file >>= λ osts.
    try_compute_ost_set lustre files (insert_osts osts osts_set)

-- The end of a reservation that starts at `tstart`; `none` if it is out of range.
unfoldable pub end_of : ℕ → ℤ → Option ℕ
end_of tstart (pos zero) = some time_max
end_of tstart (pos (suc sec)) =
    let tend = tstart + suc sec * ticks_per_second in if leb tend time_max then some tend else none
end_of tstart (negsuc n) = some time_max

-- `BuildJob`; `visit` is the order in which the set is visited.
unfoldable pub build_job : (List Str → List Str) → ResourceRequest → ℕ → ℕ → List Str → Job
build_job visit request tstart tend osts_set =
    let job = new_job request.id tstart tend (to_uint32 request.throughput_mb) in
    set_osts (visit osts_set) (set_state initialized job)

abbrev pub reply_of : ℤ → Str → Reply
reply_of rc msg = record { rc = rc; return_msg = msg }

-- `FilterJobs`, behind the construction of the regular expression.
unfoldable pub filter_jobs : (Str → Bool) → List (Str × Job) → List Job
filter_jobs search [] = []
filter_jobs search ((id, job) ∷ jobs) =
    let rest = filter_jobs search jobs in if search id then job ∷ rest else rest

-- `AddDefaultRegexIfEmpty`
unfoldable pub add_default_regex_if_empty : Str → Str
add_default_regex_if_empty regex = if is_empty regex then str ".*" else regex

-- `AddJobsToReply`: the text, from all jobs and the chosen ones.
unfoldable pub add_jobs_to_reply : (ℕ → Str) → List (Str × Job) → List Job → Str
unfolding format
add_jobs_to_reply put_time jobs job_list =
    if is_empty jobs then str "no matches found" ++ 10 ∷ [] else format put_time job_list

module _ (floats : Floats) where
  abbrev pub Planner : Type 0
  Planner = StaticScheduler floats

  abbrev pub Answer : Type 0
  Answer = Planner × Bool × Option Reply

  -- `ServeJobSubmission` from the clock on, which reads `now`.
  unfoldable pub submit :
      (List Str → List Str) → (ℕ → ℕ) → Planner → ℕ → ResourceRequest → List Str → Option Answer
  unfolding end_of build_job schedule_job
  submit visit stack s now request osts_set = end_of now request.duration_sec >>= λ tend.
      schedule_job floats s (build_job visit request now tend osts_set) stack >>= λ (s', success).
      some (s', success, some (reply_of (if success then pos 0 else negsuc 0) []))

  -- `ServeJobSubmission`
  unfoldable pub serve_job_submission :
      Lustre → (List Str → List Str) → (ℕ → ℕ) → Planner → ℕ → ResourceRequest → Option Answer
  unfolding try_compute_ost_set submit
  serve_job_submission lustre visit stack s now request =
      if is_empty request.files
      then some (s, true, none)
      else elim (try_compute_ost_set lustre request.files []) [
        | none ↦ some (s, false, none)
        | some osts_set ↦ submit visit stack s now request osts_set
      ]

  -- The loop of `ServeJobRemove`.
  unfoldable pub remove_all : Planner → List Str → Option Planner
  unfolding unregister_job remove_job
  remove_all s [] = some s
  remove_all s (id ∷ ids) = unregister_job s.monitor (job_of_id id) >>= λ (m, unregistered).
      remove_job m.schedule id >>= λ (schedule, removed).
      remove_all (record s { monitor = record m { schedule = schedule } }) ids

  -- `ServeJobRemove`
  unfoldable pub serve_job_remove : Planner → List Str → Option Answer
  unfolding remove_all
  serve_job_remove s ids = remove_all s ids >>= λ s'. some (s', true, some (reply_of (pos 0) []))

  -- `ServeListJobs`; `compile` makes a search of a regular expression, and throws where it is none;
  -- `put_time` is the text of a time point.
  unfoldable pub serve_list_jobs :
      (Str → Option (Str → Bool)) → (ℕ → Str) → Planner → Str → Option Answer
  unfolding get_all_jobs filter_jobs add_default_regex_if_empty add_jobs_to_reply
  serve_list_jobs compile put_time s regex = get_all_jobs s.monitor.schedule >>= λ jobs.
      compile (add_default_regex_if_empty regex) >>= λ search.
      some (
        s,
        true,
        some (reply_of (pos 0) (add_jobs_to_reply put_time jobs (filter_jobs search jobs))),
      )
