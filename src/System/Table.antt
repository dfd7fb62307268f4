-- ===== src/System/Table.antt =====
-- The command "ls" of the client (src/client/Client.cpp, ListReservations) against the server
-- (src/common/Planner.cpp, ServeListJobs).
mod Tests
use mathlib.Core.List.{Mem}
use qos_planner.Common.{
  ℕ, ◌≡◌, ◌≢◌, ◌⊎◌, ◌++◌, ap, ◌∙◌, List, [], ◌∷◌, Bool, true, none, some, Str, str, Returns,
  Returns-bind, returns,
}
use qos_planner.Common.Map.{find}
use qos_planner.Job.{Job}
use qos_planner.Formatter.Table.{table}
use qos_planner.Schedule.Valid.{view}
use qos_planner.Scheduler.Static.{Floats}
use qos_planner.Planner.{Planner}
use qos_planner.Planner.Listing.{Listed}

-- A text is the table of all jobs of the schedule that the search finds, or says that the schedule has no
-- jobs at all.
abbrev pub IsTable : (floats : Floats) → (ℕ → Str) → (Str → Bool) → Planner floats → Str → Type 0
IsTable floats put_time search s text =
    (jobs : List (Str × Job)) × (job_list : List Job) × (((jobs ≡ [])
        × (text ≡ str "no matches found" ++ 10 ∷ []))
      ⊎ ((jobs ≢ []) × (text ≡ table put_time job_list)))
    × ((k : Str) → find k jobs ≡ view s.monitor.schedule k)
    × ((k : Str) (job : Job)
        → view s.monitor.schedule k ≡ some job
        → search k ≡ true
        → Mem job job_list)
    × ((job : Job) → Mem job job_list → (search job.jobid ≡ true) × Mem (job.jobid, job) jobs)
