-- ===== src/Planner/Tests.antt =====
-- Runs of the planner.
use qos_planner.Common.{
  ℕ, ◌+◌, ◌*◌, ◌≡◌, refl, List, [], ◌∷◌, Bool, true, false, Option, none, some, Str, str,
  Str-discrete, Returns,
}
use qos_planner.Job.{Job}
use qos_planner.Schedule.Samples.{one_job-IsValid}
use qos_planner.Formatter.{format}
use qos_planner.Rules.Samples.{answers, silent}
use qos_planner.Monitor.Threads.{member}
use qos_planner.Message.{pos, ResourceRequest}
use qos_planner.Scheduler.Samples.{whole, scheduler}
use qos_planner.Planner.{
  insert_osts, try_compute_ost_set, end_of, reply_of, serve_job_submission, serve_job_remove,
  add_default_regex_if_empty, add_jobs_to_reply,
}
use qos_planner.Planner.Submission.{SubmissionOutcome, serve_job_submission_correct}
use qos_planner.Planner.Removal.{Forgot, serve_job_remove-Forgot}

abbrev files : List Str
files = str "/f" ∷ str "/g" ∷ []

-- Both files lie on the same OST.
one_ost : try_compute_ost_set answers files [] ≡ some (str "o1" ∷ [])
unfolding try_compute_ost_set insert_osts member Str-discrete
one_ost = refl

abbrev request : ResourceRequest
request = record { id = str "c"; throughput_mb = pos 60; duration_sec = pos 3600; files = files }

ends : end_of 5 (pos 3600) ≡ some (5 + 3600 * 1000000000)
unfolding end_of
ends = refl

serve_job_submission_correct_example :
    Returns
      (SubmissionOutcome whole answers
        (λ osts. osts)
        (λ i. 0)
        scheduler
        5
        request
        (5 + 3600 * 1000000000))
      (serve_job_submission whole answers (λ osts. osts) (λ i. 0) scheduler 5 request)
serve_job_submission_correct_example =
    serve_job_submission_correct whole answers (λ osts. osts) (λ i. 0) scheduler 5 request
      (5 + 3600 * 1000000000) one_job-IsValid ends

-- Where Lustre fails, the request fails without a reply.
no_reply :
    serve_job_submission whole silent (λ osts. osts) (λ i. 0) scheduler 5 request
    ≡ some (scheduler, false, none)
unfolding serve_job_submission try_compute_ost_set
no_reply = refl

serve_job_remove-Forgot_example :
    Returns
      (λ r.
        Forgot whole scheduler (str "a" ∷ str "x" ∷ []) r.0
        × (r.1 ≡ true)
        × (r.2 ≡ some (reply_of (pos 0) [])))
      (serve_job_remove whole scheduler (str "a" ∷ str "x" ∷ []))
serve_job_remove-Forgot_example =
    serve_job_remove-Forgot whole scheduler (str "a" ∷ str "x" ∷ []) one_job-IsValid

-- A search that finds every text, and does not compile the empty expression.
abbrev compile : Str → Option (Str → Bool)
compile [] = none
compile (c ∷ cs) = some (λ text. true)

compiles : compile (add_default_regex_if_empty []) ≡ some (λ text. true)
unfolding add_default_regex_if_empty
compiles = refl

abbrev put_time : ℕ → Str
put_time t = str "Jan 01 00:00:00"

-- No job matches, but the schedule holds one: the reply is the empty table.
empty_table : (job : Job) → add_jobs_to_reply put_time ((str "a", job) ∷ []) [] ≡ []
unfolding add_jobs_to_reply format
empty_table job = refl
