-- ===== src/Planner/Submission.antt =====
-- `ServeJobSubmission` on every branch.
use qos_planner.Common.{
  ℕ, suc, zero, ◌+◌, ◌<◌, ◌≡◌, ◌≢◌, ◌⊎◌, refl, ap, ◌∙◌, List, [], ◌∷◌, ◌++◌, true, false, Option,
  none, some, ltb, if◌then◌else◌, Str, arith, Bool-cases, Option-cases, inl, inr, Returns, returns,
  Returns-bind,
}
use qos_planner.Schedule.Valid.{IsValid}
use qos_planner.Lustre.{Lustre}
use qos_planner.Rules.{is_empty}
use qos_planner.Rules.Shares.{count, count-append, present}
use qos_planner.Monitor.Threads.{member}
use qos_planner.Message.{pos, negsuc, ResourceRequest}
use qos_planner.Scheduler.Static.{Floats}
use qos_planner.Scheduler.Admission.{ScheduleOutcome, schedule_job_correct}
use qos_planner.Planner.{
  insert_osts, try_compute_ost_set, end_of, build_job, Planner, Answer, reply_of, submit,
  serve_job_submission,
}

member-count : (x : Str) (ys : List Str) → member x ys ≡ ltb 0 (count x ys)
unfolding member count
member-count x [] = refl
member-count x (y ∷ ys) = ground (arith, member-count x ys)

present-cases : (n : ℕ) → ((n ≡ 0) × (present n ≡ 0)) ⊎ ((0 < n) × (present n ≡ 1))
present-cases zero = inl (refl, refl)
present-cases (suc n) = inr (omega arith, refl)

abbrev added : Str → List Str → List Str
added x s = if member x s then s else s ++ x ∷ []

added-count :
    (o x : Str) (s : List Str)
    → ((y : Str) → count y s ≡ present (count y s))
    → count o (added x s) ≡ present (count o s + count o (x ∷ []))
unfolding count
added-count o x s once = ground (
  arith,
  member-count x s,
  count-append o s (x ∷ []),
  once o,
  present-cases (count o s),
  present-cases (count o s + 1),
  present-cases (count o s + 0),
)

present_add : (a b : ℕ) → present (present a + b) ≡ present (a + b)
present_add a b =
    ground (arith, present-cases a, present-cases (a + b), present-cases (present a + b))

added-once :
    (x : Str) (s : List Str)
    → ((y : Str) → count y s ≡ present (count y s))
    → (y : Str) → count y (added x s) ≡ present (count y (added x s))
added-once x s once y =
    let n = count y s + count y (x ∷ []) in
    ground (arith, added-count y x s once, present-cases n, present-cases (present n))

insert_osts-count :
    (o : Str) (osts s : List Str)
    → ((x : Str) → count x s ≡ present (count x s))
    → count o (insert_osts osts s) ≡ present (count o s + count o osts)
unfolding insert_osts
insert_osts-count o [] s once = unfold count in ground (arith, once o, present-cases (count o s))
insert_osts-count o (x ∷ osts) s once =
    let n = count o s + count o (x ∷ []) in
    let whole : n + count o osts ≡ count o s + count o (x ∷ osts) =
      omega (arith, count-append o (x ∷ []) osts) in
    insert_osts-count o osts (added x s) (added-once x s once)
    ∙ ap (λ c. present (c + count o osts)) (added-count o x s once)
    ∙ present_add n (count o osts)
    ∙ ap present whole

insert_osts-once :
    (osts s : List Str)
    → ((x : Str) → count x s ≡ present (count x s))
    → (y : Str) → count y (insert_osts osts s) ≡ present (count y (insert_osts osts s))
insert_osts-once osts s once y =
    let n = count y s + count y osts in
    ground (arith, insert_osts-count y osts s once, present-cases n, present-cases (present n))

-- How often the answers of Lustre for these files name the OST.
unfoldable pub stripes : Lustre → Str → List Str → ℕ
unfolding count
stripes lustre o [] = 0
stripes lustre o (file ∷ files) = elim (lustre.get_osts_for_file file) [
  | none ↦ stripes lustre o files
  | some osts ↦ count o osts + stripes lustre o files
]

-- Lustre answers for every file.
abbrev pub IsAnswered : Lustre → List Str → Type 0
IsAnswered lustre [] = Unit {0}
IsAnswered lustre (file ∷ files) = (lustre.get_osts_for_file file ≢ none) × IsAnswered lustre files

-- What tryComputeOstSetOfRequest returns.
abbrev pub OstSet : Lustre → List Str → Option (List Str) → Type 0
OstSet lustre files r =
    ((r ≡ none) × (¬ IsAnswered lustre files))
    ⊎ ((osts_set : List Str) × (r ≡ some osts_set)
        × IsAnswered lustre files
        × ((o : Str) → count o osts_set ≡ present (stripes lustre o files)))

compute-OstSet :
    (lustre : Lustre) (files s : List Str)
    → ((x : Str) → count x s ≡ present (count x s))
    → ((try_compute_ost_set lustre files s ≡ none) × (¬ IsAnswered lustre files))
      ⊎ ((osts_set : List Str) × (try_compute_ost_set lustre files s ≡ some osts_set)
          × IsAnswered lustre files
          × ((o : Str) → count o osts_set ≡ present (count o s + stripes lustre o files)))
unfolding try_compute_ost_set stripes
compute-OstSet lustre [] s once =
    inr (s, refl, tt, λ o. ground (arith, once o, present-cases (count o s)))
compute-OstSet lustre (file ∷ files) s once = elim (Option-cases (lustre.get_osts_for_file file)) [
  | inl e ↦ inl (rw e, λ a. a.0 e)
  | inr (osts, e) ↦
      let next = insert_osts osts s in
      elim (compute-OstSet lustre files next (insert_osts-once osts s once)) [
        | inl (f, unanswered) ↦ inl (ground arith, λ a. unanswered a.1)
        | inr (r, f, answered, all) ↦ inr (
          r,
          ground arith,
          ((λ n. cc), answered),
          λ o.
              all o
              ∙ ap (λ c. present (c + stripes lustre o files)) (insert_osts-count o osts s once)
              ∙ present_add (count o s + count o osts) (stripes lustre o files)
              ∙ ap present (ground arith),
        )
      ]
]

-- tryComputeOstSetOfRequest succeeds exactly if Lustre answers for every file, and its set then
-- holds each OST that an answer names once, and no other.
pub try_compute_ost_set-OstSet :
    (lustre : Lustre) (files : List Str) → OstSet lustre files (try_compute_ost_set lustre files [])
unfolding count
try_compute_ost_set-OstSet lustre files = elim (compute-OstSet lustre files [] (λ x. refl)) [
  | inl failed ↦ inl failed
  | inr (r, e, answered, all) ↦ inr (r, e, answered, λ o. all o ∙ ap present (omega arith))
]

nil-of-is_empty : (l : List Str) → is_empty l ≡ true → l ≡ []
nil-of-is_empty [] e = refl
nil-of-is_empty (x ∷ l) e = cc

module _ (floats : Floats) (lustre : Lustre) (visit : List Str → List Str) (stack : ℕ → ℕ)
    (s : Planner floats) (now : ℕ) (request : ResourceRequest) where
  -- What ServeJobSubmission does with the end `tend`: nothing for a request without files; nothing, and
  -- no reply, if Lustre fails for a file; and otherwise what ScheduleJob does with the job that is
  -- built, with the return code 0 or -1 in the reply.
  abbrev pub SubmissionOutcome : ℕ → Answer floats → Type 0
  SubmissionOutcome tend (s', success, reply) =
      ((request.files ≡ []) × (s' ≡ s) × (success ≡ true) × (reply ≡ none))
      ⊎ (¬ IsAnswered lustre request.files) × (s' ≡ s) × (success ≡ false) × (reply ≡ none)
      ⊎ (osts_set : List Str) × OstSet lustre request.files (some osts_set)
        × ScheduleOutcome floats s (build_job visit request now tend osts_set) stack (s', success)
        × (reply ≡ some (reply_of (if success then pos 0 else negsuc 0) []))

  -- ServeJobSubmission on a valid schedule, of a request whose end is in range, always returns: it
  -- does nothing for a request without files; nothing, and sets no reply, if Lustre fails for a
  -- file; and otherwise what ScheduleJob does with the job that is built from the request and the
  -- OSTs of its files, with the return code 0 or -1 in the reply.
  pub serve_job_submission_correct :
      (tend : ℕ)
      → IsValid s.monitor.schedule
      → end_of now request.duration_sec ≡ some tend
      → Returns
          (SubmissionOutcome tend)
          (serve_job_submission floats lustre visit stack s now request)
  unfolding serve_job_submission submit
  serve_job_submission_correct tend v ends = elim (Bool-cases (is_empty request.files)) [
    | inl empty ↦ rw empty (returns (inl (nil-of-is_empty request.files empty, refl, refl, refl)))
    | inr full ↦ rw full (elim (try_compute_ost_set-OstSet lustre request.files) [
      | inl (e, unanswered) ↦ rw e (returns (inr (inl (unanswered, refl, refl, refl))))
      | inr (osts_set, e, answered, all) ↦
          let job = build_job visit request now tend osts_set in
          rw (e, submit, ends)
            (Returns-bind (schedule_job_correct floats s job stack v)
              λ r o. returns (inr (inr (osts_set, inr (osts_set, refl, answered, all), o, refl))))
    ])
  ]
