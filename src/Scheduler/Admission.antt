-- ===== src/Scheduler/Admission.antt =====
-- Which jobs `ScheduleJob` admits, and what it does then.
use qos_planner.Common.{
  ℕ, suc, ◌≡◌, ◌⊎◌, refl, List, [], ◌∷◌, Bool, true, false, none, some, ite, if◌then◌else◌, ◌>>=◌,
  Str, Str-discrete, Perm, Bool-cases, inl, inr, Returns, returns, Returns-bind, Returns-map,
  length,
}
use qos_planner.Job.{Job, jobstart, scheduled, set_state}
use qos_planner.Schedule.{Schedule, get_ost_state, remove_job}
use qos_planner.Schedule.Order.{Booked}
use qos_planner.Schedule.Valid.{IsValid, view, Added, add_job_correct}
use qos_planner.Monitor.{item, register_job}
use qos_planner.Monitor.Ready.{register_job-Registered}
use qos_planner.Scheduler.Load.{get_max_load-out}
use qos_planner.Scheduler.Static.{
  Floats, StaticScheduler, are_enough_res_avail, check_osts, admit, schedule_job,
}

module _ (floats : Floats) where
  -- The load that a round works with: 0 for an OST that no job was ever put on, and otherwise
  -- whatever the variable held.
  abbrev pub seen : Schedule → Str → ℕ → ℕ
  seen s ost out = elim (get_ost_state s ost) [ none ↦ 0 | some l ↦ out ]

  -- Each OST has a limit, and the load that its round works with leaves room for the job.
  abbrev pub Fits : StaticScheduler floats → Job → (ℕ → ℕ) → List Str → Type 0
  Fits s job stack [] = Unit {0}
  Fits s job stack (ost ∷ osts) =
      (are_enough_res_avail floats s.osts_max_mbs_limits job ost
          (seen s.monitor.schedule ost (stack 0))
        ≡ true)
      × Fits s job (λ i. stack (suc i)) osts

  check_osts-Fits :
      (s : StaticScheduler floats) (job : Job) (stack : ℕ → ℕ) (osts : List Str)
      → IsValid s.monitor.schedule
      → ((check_osts floats s job stack osts ≡ some true) × Fits s job stack osts)
        ⊎ ((check_osts floats s job stack osts ≡ some false) × (¬ Fits s job stack osts))
  unfolding check_osts
  check_osts-Fits s job stack [] v = inl (refl, tt)
  check_osts-Fits s job stack (ost ∷ osts) v =
      let load = seen s.monitor.schedule ost (stack 0) in
      rw (get_max_load-out s.monitor.schedule ost job.tstart job.tend (stack 0) v)
        (elim (Bool-cases (are_enough_res_avail floats s.osts_max_mbs_limits job ost load)) [
          | inr full ↦ rw full (inr (refl, λ f. cc))
          | inl room ↦ rw room (elim (check_osts-Fits s job (λ i. stack (suc i)) osts v) [
            | inl (e, f) ↦ inl (e, (refl, f))
            | inr (e, n) ↦ inr (e, λ x. n x.1)
          ])
        ])

  -- The job, as scheduled, is in the schedule and on the lists of its OSTs, and its start in the queue.
  pub record Admitted (s : StaticScheduler floats) (job : Job) (s' : StaticScheduler floats)
      : Type 0 where
    pub valid : IsValid s'.monitor.schedule
    pub states :
        (k : Str)
        → view s'.monitor.schedule k
          ≡ ite
              (Str-discrete job.jobid k)
              (some (set_state scheduled job))
              (view s.monitor.schedule k)
    pub booked :
        Booked
          (length s.monitor.schedule.store)
          job.osts
          s.monitor.schedule.schedule
          s'.monitor.schedule.schedule
    pub waiting : Perm s'.monitor.queue (item job.jobid job.tstart jobstart ∷ s.monitor.queue)
    pub rules : s'.monitor.rules ≡ s.monitor.rules
    pub limits : s'.osts_max_mbs_limits ≡ s.osts_max_mbs_limits

  abbrev AdmitOutcome : StaticScheduler floats → Job → StaticScheduler floats × Bool → Type 0
  AdmitOutcome s job r =
      ((r ≡ (s, false)) × ((j : Job) × (view s.monitor.schedule job.jobid ≡ some j)))
      ⊎ ((r.1 ≡ true) × (view s.monitor.schedule job.jobid ≡ none) × Admitted s job r.0)

  admit-outcome :
      (s : StaticScheduler floats) (job : Job)
      → IsValid s.monitor.schedule
      → Returns (AdmitOutcome s job) (admit floats s job)
  unfolding admit register_job
  admit-outcome s job v =
      Returns-bind (add_job_correct s.monitor.schedule job.jobid (set_state scheduled job) v refl)
        λ r o. finish r o
    where
      finish :
          (r : Schedule × Bool)
          → Added s.monitor.schedule job.jobid (set_state scheduled job) r
          → Returns (AdmitOutcome s job) (
              let m = record s.monitor { schedule = r.0 } in
              let registration = register_job m (set_state scheduled job) >>= λ (m', registered).
              let undo = remove_job m'.schedule job.jobid >>= λ (schedule', removed).
              some (record s { monitor = record m' { schedule = schedule' } }, false) in
              if registered then some (record s { monitor = m' }, true) else undo in
              if r.1 then registration else some (record s { monitor = m }, false))
      finish r (inl (refused, same, known)) = rw (refused, same) (returns (inl (refl, known)))
      finish r (inr (added, unknown, valid, states, booked)) = rw added (
          Returns-bind
            (register_job-Registered (record s.monitor { schedule = r.0 })
              (set_state scheduled job))
            λ x g. rw g.succeeded (
              returns (
                inr (
                  refl,
                  unknown,
                  record {
                    valid = rw g.schedule valid;
                    states = λ k. rw g.schedule (states k);
                    booked = rw g.schedule booked;
                    waiting = g.waiting;
                    rules = g.rules;
                    limits = refl;
                  },
                ))))

  -- What ScheduleJob returns: false and an untouched scheduler for a job that does not fit or whose
  -- id is in use, and otherwise true, with the job admitted.
  abbrev pub ScheduleOutcome :
      StaticScheduler floats → Job → (ℕ → ℕ) → StaticScheduler floats × Bool → Type 0
  ScheduleOutcome s job stack r =
      ((r ≡ (s, false))
        × ((¬ Fits s job stack job.osts)
            ⊎ ((j : Job) × (view s.monitor.schedule job.jobid ≡ some j))))
      ⊎ ((r.1 ≡ true)
          × Fits s job stack job.osts
          × (view s.monitor.schedule job.jobid ≡ none)
          × Admitted s job r.0)

  -- On a valid schedule ScheduleJob always returns; it admits a job exactly if its id is free and
  -- each of its OSTs has a limit with room for the job beside the load that the round works with,
  -- books it on each OST, keeps the invariant and registers its start, and otherwise changes
  -- nothing.
  pub schedule_job_correct :
      (s : StaticScheduler floats) (job : Job) (stack : ℕ → ℕ)
      → IsValid s.monitor.schedule
      → Returns (ScheduleOutcome s job stack) (schedule_job floats s job stack)
  unfolding schedule_job
  schedule_job_correct s job stack v = elim (check_osts-Fits s job stack job.osts v) [
    | inr (e, misfit) ↦ rw e (returns (inl (refl, inl misfit)))
    | inl (e, fits) ↦ rw e (Returns-map (admit-outcome s job v) λ r o. outcome fits r o)
  ]
    where
      outcome :
          Fits s job stack job.osts
          → (r : StaticScheduler floats × Bool) → AdmitOutcome s job r
          → ScheduleOutcome s job stack r
      outcome fits r (inl (same, known)) = inl (same, inr known)
      outcome fits r (inr (done, unknown, a)) = inr (done, fits, unknown, a)
