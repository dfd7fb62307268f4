-- ===== src/Schedule.antt =====
-- src/common/MemoryScheduleState.h and .cpp (and the interface in ScheduleState.h): the accepted
-- jobs. The maps hold pointers: a pointer is an index into a store of jobs, and a cell of the store
-- is empty once its job is deleted. `none` is a read through such a pointer. Each method holds
-- `schedule_mut_` throughout, so a call is one step; the log is left out.
pub mod Store
pub mod Order
pub mod Valid
pub mod Update
pub mod Remove
pub mod View
pub mod State
pub mod Session
pub mod Samples
mod Tests
use qos_planner.Common.{
  ℕ, zero, suc, ◌+◌, List, [], ◌∷◌, ◌++◌, Bool, true, false, Option, none, some, ite, ltb,
  if◌then◌else◌, ◌>>=◌, length, get_elem?, set, Str, Str-discrete,
}
use qos_planner.Common.Map.{find, assign, erase}
use qos_planner.Job.{Job, JobState, set_state}

-- The allocated jobs, by address.
abbrev pub Store : Type 0
Store = List (Option Job)

pub record Schedule : Type 0 where
  pub store : Store
  pub schedule : List (Str × List ℕ)
  pub jobs : List (Str × ℕ)

abbrev pub empty : Schedule
empty = record { store = []; schedule = []; jobs = [] }

-- `*p`
unfoldable pub deref : Store → ℕ → Option Job
deref h p = get_elem? h p >>= λ cell. cell

-- `delete p`
unfoldable pub free : Store → ℕ → Store
free h p = set h p none

-- `Init` and `TearDown` change nothing.
abbrev pub init : Schedule → Schedule × Bool
init s = (s, true)

abbrev pub tear_down : Schedule → Schedule × Bool
tear_down s = (s, true)

-- `GetClusterState`: a copy of the map and of its lists, which share the jobs.
abbrev pub get_cluster_state : Schedule → List (Str × List ℕ)
get_cluster_state s = s.schedule

-- `GetOSTState`: `none` for the null pointer.
unfoldable pub get_ost_state : Schedule → Str → Option (List ℕ)
get_ost_state s ost = find ost s.schedule

-- The deletions of `Reset`.
unfoldable pub free_all : Store → List (Str × ℕ) → Store
unfolding free
free_all h [] = h
free_all h ((id, p) ∷ m) = free_all (free h p) m

-- `Reset`
unfoldable pub reset : Schedule → Schedule
unfolding free_all
reset s = record { store = free_all s.store s.jobs; schedule = []; jobs = [] }

-- The inner loop of `AddJob`: the pointer goes before the first job that starts later.
unfoldable pub insert_by_start : Store → ℕ → ℕ → List ℕ → Option (List ℕ)
unfolding deref
insert_by_start h p start [] = some (p ∷ [])
insert_by_start h p start (q ∷ qs) = do
  other ← deref h q
  let rest = insert_by_start h p start qs >>= λ r. some (q ∷ r)
  if ltb start other.tstart then some (p ∷ q ∷ qs) else rest

-- `schedule_[ost]`, with an empty list for a new OST.
abbrev pub ost_list : Str → List (Str × List ℕ) → List ℕ
ost_list ost m = elim (find ost m) [ none ↦ [] | some l ↦ l ]

-- The outer loop of `AddJob`.
unfoldable pub insert_all :
    Store → ℕ → ℕ → List Str → List (Str × List ℕ) → Option (List (Str × List ℕ))
unfolding insert_by_start
insert_all h p start [] m = some m
insert_all h p start (ost ∷ osts) m = do
  l ← insert_by_start h p start (ost_list ost m)
  insert_all h p start osts (assign ost l m)

-- `AddJob`
unfoldable pub add_job : Schedule → Str → Job → List Str → Option (Schedule × Bool)
unfolding insert_all
add_job s jobid job osts = elim (find jobid s.jobs) [
  | some p ↦ some (s, false)
  | none ↦
      let h = s.store ++ some job ∷ [] in
      let p = length s.store in
      insert_all h p job.tstart osts s.schedule >>= λ m.
      some (record { store = h; schedule = m; jobs = assign jobid p s.jobs }, true)
]

-- The loop of `RemoveJob` over one OST works on a copy of the list, which is dropped: only its
-- reads of the jobs up to the removed one are left.
unfoldable pub scan_copy : Store → Str → List ℕ → Option (Unit {0})
unfolding deref
scan_copy h jobid [] = some tt
scan_copy h jobid (q ∷ qs) = do
  other ← deref h q
  let rest = scan_copy h jobid qs
  ite (Str-discrete other.jobid jobid) (some tt) rest

-- The loop of `RemoveJob` over the job's OSTs; `schedule_[ost]` makes a list for a new OST.
unfoldable pub scan_osts :
    Store → Str → List Str → List (Str × List ℕ) → Option (List (Str × List ℕ))
unfolding scan_copy
scan_osts h jobid [] m = some m
scan_osts h jobid (ost ∷ osts) m = do
  done ← scan_copy h jobid (ost_list ost m)
  scan_osts h jobid osts (assign ost (ost_list ost m) m)

-- `RemoveJob`: the job is not deleted.
unfoldable pub remove_job : Schedule → Str → Option (Schedule × Bool)
unfolding scan_osts deref
remove_job s jobid = elim (find jobid s.jobs) [
  | none ↦ some (s, false)
  | some p ↦ deref s.store p >>= λ job. scan_osts s.store jobid job.osts s.schedule >>= λ m.
      some (record { store = s.store; schedule = m; jobs = erase jobid s.jobs }, true)
]

-- `UpdateJob`: the job is shared by the lists of its OSTs.
unfoldable pub update_job : Schedule → Str → JobState → Option (Schedule × Bool)
unfolding deref
update_job s jobid new_state = elim (find jobid s.jobs) [
  | none ↦ some (s, false)
  | some p ↦ deref s.store p >>= λ job.
      some (record s { store = set s.store p (some (set_state new_state job)) }, true)
]

-- A getter that looks the job up and reads a part of it: the outer `none` is a dangling pointer,
-- the inner one the result false, which leaves the output parameter alone.
unfoldable pub get_of_job {ℓ} : {A : Type ℓ} → (Job → A) → Schedule → Str → Option (Option A)
unfolding deref
get_of_job part s jobid = elim (find jobid s.jobs) [
  | none ↦ some none
  | some p ↦ deref s.store p >>= λ job. some (some (part job))
]

-- `GetJobThroughput`
abbrev pub get_job_throughput : Schedule → Str → Option (Option ℕ)
get_job_throughput = get_of_job (λ j. j.min_read_throughput)

-- `GetJobStatus`
abbrev pub get_job_status : Schedule → Str → Option (Option JobState)
get_job_status = get_of_job (λ j. j.state)

-- `GetJobEnd`
abbrev pub get_job_end : Schedule → Str → Option (Option ℕ)
get_job_end = get_of_job (λ j. j.tend)

-- `GetJobOstIds`: what is appended to the output parameter.
abbrev pub get_job_ost_ids : Schedule → Str → Option (Option (List Str))
get_job_ost_ids = get_of_job (λ j. j.osts)

-- The loop of `GetAllJobs`.
unfoldable pub copy_jobs : Store → List (Str × ℕ) → Option (List (Str × Job))
unfolding deref
copy_jobs h [] = some []
copy_jobs h ((id, p) ∷ m) = do job ← deref h p; copies ← copy_jobs h m; some ((id, job) ∷ copies)

-- `GetAllJobs`
unfoldable pub get_all_jobs : Schedule → Option (List (Str × Job))
unfolding copy_jobs
get_all_jobs s = copy_jobs s.store s.jobs
