-- ===== src/Formatter/Lines.antt =====
-- The lines of the table.
use qos_planner.Common.{
  ℕ, zero, suc, ◌+◌, ◌-◌, ◌/◌, ◌%◌, ◌≡◌, refl, ◌∙◌, List, [], ◌∷◌, ◌++◌, ◌==◌, if◌then◌else◌,
  length, Str, to_string, digits, arith,
}
use qos_planner.Job.{Job, JobState, job_state_to_string, initialized, scheduled, active, done}
use qos_planner.Formatter.{
  reservation_shift, throughput_shift, jobstate_shift, spaces, pad, header, add_job_line, add_jobs,
  format,
}

unfoldable pub newlines : Str → ℕ
newlines [] = 0
newlines (c ∷ s) = if c == 10 then suc (newlines s) else newlines s

newlines-append : (s t : Str) → newlines (s ++ t) ≡ newlines s + newlines t
unfolding newlines
newlines-append [] t = omega arith
newlines-append (c ∷ s) t = ground (arith, newlines-append s t)

newlines-spaces : (n : ℕ) → newlines (spaces n) ≡ 0
unfolding newlines spaces
newlines-spaces zero = refl
newlines-spaces (suc n) = newlines-spaces n

newlines-pad : (width : ℕ) (s : Str) → newlines (pad width s) ≡ newlines s
unfolding pad
newlines-pad width s =
    omega (arith, newlines-append s (spaces (width - length s)), newlines-spaces (width - length s))

newlines-digits : (fuel n : ℕ) → newlines (digits fuel n) ≡ 0
unfolding newlines digits
newlines-digits zero n = refl
newlines-digits (suc fuel) n = ground (
  arith,
  newlines-digits fuel (n / 10),
  newlines-append (digits fuel (n / 10)) ((48 + n % 10) ∷ []),
)

newlines-state : (st : JobState) → newlines (job_state_to_string st) ≡ 0
unfolding newlines job_state_to_string
newlines-state initialized = refl
newlines-state scheduled = refl
newlines-state active = refl
newlines-state done = refl

newlines-row :
    (a b c t : Str)
    → newlines (a ++ b ++ c ++ t ++ 10 ∷ []) ≡ newlines a + newlines b + newlines c + newlines t + 1
newlines-row a b c t =
    let last : newlines (10 ∷ []) ≡ 1 = unfold newlines in refl in
    omega (
      arith,
      newlines-append (a ++ b ++ c ++ t) (10 ∷ []),
      newlines-append (a ++ b ++ c) t,
      newlines-append (a ++ b) c,
      newlines-append a b,
      last,
    )

newlines-header : newlines header ≡ 1
unfolding newlines header pad spaces
newlines-header = refl

module _ (put_time : ℕ → Str) (one_line : (t : ℕ) → newlines (put_time t) ≡ 0) where
  newlines-add_job_line : (j : Job) → newlines j.jobid ≡ 0 → newlines (add_job_line put_time j) ≡ 1
  unfolding add_job_line
  newlines-add_job_line j e =
      let id = pad reservation_shift j.jobid in
      let mbs = pad throughput_shift (to_string j.min_read_throughput) in
      let st = pad jobstate_shift (job_state_to_string j.state) in
      newlines-row id mbs st (put_time j.tend)
      ∙ omega (
        arith,
        newlines-pad reservation_shift j.jobid,
        newlines-pad throughput_shift (to_string j.min_read_throughput),
        newlines-digits 10 j.min_read_throughput,
        newlines-pad jobstate_shift (job_state_to_string j.state),
        newlines-state j.state,
        one_line j.tend,
        e,
      )

  abbrev pub AreOneLine : List Job → Type 0
  AreOneLine [] = Unit {0}
  AreOneLine (j ∷ jobs) = (newlines j.jobid ≡ 0) × AreOneLine jobs

  newlines-add_jobs :
      (jobs : List Job) → AreOneLine jobs → newlines (add_jobs put_time jobs) ≡ length jobs
  unfolding add_jobs newlines
  newlines-add_jobs [] e = refl
  newlines-add_jobs (j ∷ jobs) (e, es) = omega (
    arith,
    newlines-append (add_job_line put_time j) (add_jobs put_time jobs),
    newlines-add_job_line j e,
    newlines-add_jobs jobs es,
  )

  -- The table of some jobs has one line for the header and one for each of them, if no id and no
  -- time holds a line break.
  pub newlines-format :
      (j : Job) (jobs : List Job)
      → AreOneLine (j ∷ jobs)
      → newlines (format put_time (j ∷ jobs)) ≡ suc (length (j ∷ jobs))
  unfolding format
  newlines-format j jobs e = omega (
    arith,
    newlines-header,
    newlines-append header (add_jobs put_time (j ∷ jobs)),
    newlines-add_jobs (j ∷ jobs) e,
  )
