-- ===== src/Formatter.antt =====
-- src/common/ListJobsFormatter.h and .cpp: the table of jobs. The text of a time point is a parameter.
pub mod Lines
pub mod Table
mod Tests
use qos_planner.Common.{ℕ, ◌-◌, zero, suc, List, [], ◌∷◌, ◌++◌, length, Str, str, to_string}
use qos_planner.Job.{Job, job_state_to_string}

abbrev pub reservation_shift : ℕ
reservation_shift = 15

abbrev pub throughput_shift : ℕ
throughput_shift = 20

abbrev pub jobstate_shift : ℕ
jobstate_shift = 15

abbrev pub time_end_shift : ℕ
time_end_shift = 20

unfoldable pub spaces : ℕ → Str
spaces zero = []
spaces (suc n) = 32 ∷ spaces n

-- A text to the left of a field of this width, which a longer text exceeds.
unfoldable pub pad : ℕ → Str → Str
unfolding spaces
pad width s = s ++ spaces (width - length s)

-- `AddHeader`
unfoldable pub header : Str
unfolding pad
header =
    pad reservation_shift (str "Reserv.-ID")
    ++ pad throughput_shift (str "Throughput [MB/s]")
    ++ pad jobstate_shift (str "State")
    ++ pad time_end_shift (str "TEnd")
    ++ 10 ∷ []

-- `AddJob`; the time is put without regard to the width.
unfoldable pub add_job_line : (ℕ → Str) → Job → Str
unfolding pad job_state_to_string
add_job_line put_time j =
    pad reservation_shift j.jobid
    ++ pad throughput_shift (to_string j.min_read_throughput)
    ++ pad jobstate_shift (job_state_to_string j.state)
    ++ put_time j.tend
    ++ 10 ∷ []

-- `AddJobs`
unfoldable pub add_jobs : (ℕ → Str) → List Job → Str
unfolding add_job_line
add_jobs put_time [] = []
add_jobs put_time (j ∷ jobs) = add_job_line put_time j ++ add_jobs put_time jobs

-- `Format`
unfoldable pub format : (ℕ → Str) → List Job → Str
unfolding header add_jobs
format put_time [] = []
format put_time (j ∷ jobs) = header ++ add_jobs put_time (j ∷ jobs)
