-- ===== src/Planner/Listing.antt =====
-- `ServeListJobs`.
use mathlib.Core.List.{not-mem-nil, mem-cons, mem-cons_self, mem-cons_of_mem}
use mathlib.Core.Logic.Or
use mathlib.Core.Bool.{Bool-set}
use qos_planner.Common.{
  ℕ, ◌≡◌, refl, sym, ap, ◌∙◌, subst, List, [], ◌∷◌, Mem, Bool, true, Option, some, some_eq, if_pos,
  if_neg, Str, Str-discrete, Bool-cases, inl, inr, Returns, returns, Returns-bind, Returns-inv,
}
use qos_planner.Common.Map.{find}
use qos_planner.Job.{Job}
use qos_planner.Schedule.{Store, copy_jobs, get_all_jobs}
use qos_planner.Schedule.Store.{IsNamed}
use qos_planner.Schedule.Valid.{IsValid, view}
use qos_planner.Schedule.View.{get_all_jobs-view}
use qos_planner.Message.{pos}
use qos_planner.Scheduler.Static.{Floats}
use qos_planner.Planner.{
  Planner, Answer, reply_of, filter_jobs, add_default_regex_if_empty, add_jobs_to_reply,
  serve_list_jobs,
}

-- Every job of a valid schedule is copied under its own id.
abbrev IsCopied : List (Str × Job) → Type 0
IsCopied [] = Unit {0}
IsCopied ((id, job) ∷ jobs) = (job.jobid ≡ id) × IsCopied jobs

copy_jobs-IsCopied :
    (h : Store) (m : List (Str × ℕ)) → IsNamed h m → Returns IsCopied (copy_jobs h m)
unfolding copy_jobs
copy_jobs-IsCopied h [] n = returns tt
copy_jobs-IsCopied h ((id, p) ∷ m) ((j, at, named), rest) =
    rw at (Returns-bind (copy_jobs-IsCopied h m rest) λ l c. returns (named, c))

filter_jobs_complete :
    (search : Str → Bool) (jobs : List (Str × Job)) (id : Str) (job : Job)
    → find id jobs ≡ some job
    → search id ≡ true
    → Mem job (filter_jobs search jobs)
unfolding filter_jobs find
filter_jobs_complete search [] id job e hit = cc
filter_jobs_complete search ((i, j) ∷ jobs) id job e hit = elim (Str-discrete i id) [
  | yes here ↦
      let hit' : search i ≡ true = ap search here ∙ hit in
      let own : j ≡ job = some_eq (rw (if_pos _ here) at e) in
      rw hit' (subst (λ x. Mem x (j ∷ filter_jobs search jobs)) own mem-cons_self)
  | no miss ↦
      let rest = filter_jobs_complete search jobs id job (rw (if_neg _ miss) at e) hit in
      elim (Bool-cases (search i)) [
        | inl other ↦ rw other (mem-cons_of_mem _ rest)
        | inr none_here ↦ rw none_here rest
      ]
]

filter_jobs_sound :
    (search : Str → Bool) (jobs : List (Str × Job))
    → IsCopied jobs
    → (job : Job) → Mem job (filter_jobs search jobs)
    → search job.jobid ≡ true
unfolding filter_jobs
filter_jobs_sound search [] c job = λ m. absurd (not-mem-nil m)
filter_jobs_sound search ((i, j) ∷ jobs) (own, c) job = elim (Bool-cases (search i)) [
  | inl hit ↦ rw hit (λ m.
      Or.elim (Bool-set _ _) (mem-cons.0 m)
        (λ e. ap (λ (x : Job). search x.jobid) e ∙ ap search own ∙ hit)
        (filter_jobs_sound search jobs c job))
  | inr miss ↦ rw miss (filter_jobs_sound search jobs c job)
]

filter_jobs_copied :
    (search : Str → Bool) (jobs : List (Str × Job))
    → IsCopied jobs
    → (job : Job) → Mem job (filter_jobs search jobs)
    → Mem (job.jobid, job) jobs
unfolding filter_jobs
filter_jobs_copied search [] c job = λ m. absurd (not-mem-nil m)
filter_jobs_copied search ((i, j) ∷ jobs) (own, c) job =
    let rest = λ (m : Mem job (filter_jobs search jobs)).
      mem-cons_of_mem (i, j) (filter_jobs_copied search jobs c job m) in
    let first : Mem (j.jobid, j) ((i, j) ∷ jobs) = rw own mem-cons_self in
    elim (Bool-cases (search i)) [
      | inl hit ↦ rw hit (λ m.
          Or.elim squash₁ (mem-cons.0 m)
            (λ e. subst (λ (x : Job). Mem (x.jobid, x) ((i, j) ∷ jobs)) (sym e) first) rest)
      | inr miss ↦ rw miss rest
    ]

module _ (floats : Floats) where
  -- The reply to a request for jobs, with the search `search`: the table of a list of jobs that holds
  -- every job whose id matches and no other, or the text that there are none if the schedule is empty.
  abbrev pub Listed : (ℕ → Str) → Planner floats → (Str → Bool) → Answer floats → Type 0
  Listed put_time s search (s', success, reply) =
      (s' ≡ s)
      × (success ≡ true)
      × ((jobs : List (Str × Job)) × (job_list : List Job) × (reply
            ≡ some (reply_of (pos 0) (add_jobs_to_reply put_time jobs job_list)))
          × ((k : Str) → find k jobs ≡ view s.monitor.schedule k)
          × ((k : Str) (job : Job)
              → view s.monitor.schedule k ≡ some job
              → search k ≡ true
              → Mem job job_list)
          × ((job : Job)
              → Mem job job_list
              → (search job.jobid ≡ true) × Mem (job.jobid, job) jobs))

  -- ServeListJobs on a valid schedule, with a regular expression that compiles, always returns; it
  -- changes nothing, and its reply is made from exactly the jobs whose ids match, where an empty
  -- expression stands for .*
  pub serve_list_jobs-Listed :
      (compile : Str → Option (Str → Bool)) (put_time : ℕ → Str) (s : Planner floats) (regex : Str)
      (search : Str → Bool)
      → IsValid s.monitor.schedule
      → compile (add_default_regex_if_empty regex) ≡ some search
      → Returns (Listed put_time s search) (serve_list_jobs floats compile put_time s regex)
  unfolding serve_list_jobs get_all_jobs
  serve_list_jobs-Listed compile put_time s regex search v compiles =
      let (jobs, e, (keys, same)) = Returns-inv (get_all_jobs-view s.monitor.schedule v) in
      let (jobs', e', copied) =
        Returns-inv (copy_jobs-IsCopied s.monitor.schedule.store s.monitor.schedule.jobs v.named) in
      let same_jobs : jobs' ≡ jobs = some_eq (sym e' ∙ e) in
      let owned = subst IsCopied same_jobs copied in
      rw (e, compiles)
        (returns (
          refl,
          refl,
          (
            jobs,
            filter_jobs search jobs,
            refl,
            same,
            (λ k job known hit. filter_jobs_complete search jobs k job (same k ∙ known) hit),
            λ job m. (
              filter_jobs_sound search jobs owned job m,
              filter_jobs_copied search jobs owned job m,
            ),
          ),
        ))
