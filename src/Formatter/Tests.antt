-- ===== src/Formatter/Tests.antt =====
-- A table of one job.
use qos_planner.Common.{ℕ, ◌≡◌, refl, [], ◌∷◌, ◌++◌, Str, str, digits}
use qos_planner.Job.{job_state_to_string}
use qos_planner.Schedule.Samples.{job_a}
use qos_planner.Formatter.{spaces, pad, header, add_job_line, add_jobs, format}
use qos_planner.Formatter.Lines.{newlines}

abbrev put_time : ℕ → Str
put_time t = str "Jan 01 00:00:20"

table :
    format put_time (job_a ∷ [])
    ≡ str "Reserv.-ID     Throughput [MB/s]   State          TEnd                "
      ++ 10 ∷ []
      ++ str "a              60                  SCHEDULED      Jan 01 00:00:20"
      ++ 10 ∷ []
unfolding format header add_jobs add_job_line pad spaces digits job_state_to_string
table = refl

time_is_one_line : (t : ℕ) → newlines (put_time t) ≡ 0
unfolding newlines
time_is_one_line t = refl
