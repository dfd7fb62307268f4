-- ===== src/Formatter/Table.antt =====
-- The text of the table, cell by cell.
use qos_planner.Common.{
  ℕ, ◌-◌, zero, suc, ◌≡◌, refl, ap, ◌∙◌, List, [], ◌∷◌, ◌++◌, length, Str, str, to_string,
}
use qos_planner.Job.{Job, job_state_to_string}
use qos_planner.Retry.Attempts.{replicate}
use qos_planner.Formatter.{spaces, pad, header, add_job_line, add_jobs, format}

-- A text on the left of a cell of this width, with blanks behind it.
abbrev pub cell : ℕ → Str → Str
cell width text = text ++ replicate (width - length text) 32

abbrev pub title : Str
title = str "Reserv.-ID     Throughput [MB/s]   State          TEnd                " ++ 10 ∷ []

-- One line for each job: its id, its throughput, its state and its end.
abbrev pub rows : (ℕ → Str) → List Job → Str
rows put_time [] = []
rows put_time (j ∷ jobs) =
    cell 15 j.jobid
    ++ cell 20 (to_string j.min_read_throughput)
    ++ cell 15 (job_state_to_string j.state)
    ++ put_time j.tend
    ++ 10 ∷ []
    ++ rows put_time jobs

-- Nothing for no job.
abbrev pub table : (ℕ → Str) → List Job → Str
table put_time [] = []
table put_time (j ∷ jobs) = title ++ rows put_time (j ∷ jobs)

spaces-replicate : (n : ℕ) → spaces n ≡ replicate n 32
unfolding spaces replicate
spaces-replicate zero = refl
spaces-replicate (suc n) = ap (◌∷◌ 32) (spaces-replicate n)

pad-cell : (width : ℕ) (s : Str) → pad width s ≡ cell width s
unfolding pad
pad-cell width s = ap (◌++◌ s) (spaces-replicate (width - length s))

header-title : header ≡ title
unfolding header pad spaces
header-title = refl

add_jobs-rows : (put_time : ℕ → Str) (jobs : List Job) → add_jobs put_time jobs ≡ rows put_time jobs
unfolding add_jobs add_job_line
add_jobs-rows put_time [] = refl
add_jobs-rows put_time (j ∷ jobs) =
    let line = λ (id mbs st later : Str). id ++ mbs ++ st ++ put_time j.tend ++ 10 ∷ [] ++ later in
    ap
      (λ id.
        line id (pad 20 (to_string j.min_read_throughput)) (pad 15 (job_state_to_string j.state))
          (add_jobs put_time jobs))
      (pad-cell 15 j.jobid)
    ∙ ap
        (λ mbs.
          line (cell 15 j.jobid) mbs (pad 15 (job_state_to_string j.state))
            (add_jobs put_time jobs))
        (pad-cell 20 (to_string j.min_read_throughput))
    ∙ ap
        (λ st.
          line (cell 15 j.jobid) (cell 20 (to_string j.min_read_throughput)) st
            (add_jobs put_time jobs))
        (pad-cell 15 (job_state_to_string j.state))
    ∙ ap
        (line (cell 15 j.jobid) (cell 20 (to_string j.min_read_throughput))
          (cell 15 (job_state_to_string j.state)))
        (add_jobs-rows put_time jobs)

pub format-table :
    (put_time : ℕ → Str) (jobs : List Job) → format put_time jobs ≡ table put_time jobs
unfolding format
format-table put_time [] = refl
format-table put_time (j ∷ jobs) =
    ap (λ h. h ++ add_jobs put_time (j ∷ jobs)) header-title
    ∙ ap (◌++◌ title) (add_jobs-rows put_time (j ∷ jobs))
