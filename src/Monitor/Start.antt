-- ===== src/Monitor/Start.antt =====
-- `StartJob` on every branch.
use qos_planner.Common.{
  ◌≡◌, ◌≢◌, ◌⊎◌, refl, sym, ◌∙◌, List, ◌∷◌, ◌++◌, Bool, true, false, some, some_eq, ite, if_pos,
  if_neg, if◌then◌else◌, Str, Str-discrete, arith, Perm, Option-cases, Bool-cases, inl, inr,
  Returns, returns, Returns-bind, Returns-map,
}
use qos_planner.Job.{Job, jobstop, scheduled, active, JobState-discrete, set_state}
use qos_planner.Queue.Contents.{push-perm}
use qos_planner.Schedule.{Schedule}
use qos_planner.Schedule.Valid.{IsValid, view}
use qos_planner.Schedule.Update.{Updated, update_job_correct}
use qos_planner.Schedule.View.{get_of_job-view}
use qos_planner.Rules.{RuleManager, NrsCall, set_rules}
use qos_planner.Monitor.{
  JobMonitor, World, item, set_nrs_rules, push_stop, start_scheduled, start_job,
}

-- The call of SetRules for a job.
abbrev pub setting : World → JobMonitor → Str → Job → RuleManager × Bool × List NrsCall
setting w m jobid j = set_rules w.lustre w.result w.order m.rules j.osts jobid j.min_read_throughput

-- The monitor behind that call.
abbrev pub ruled : World → JobMonitor → Str → Job → JobMonitor
ruled w m jobid j = record m {
  rules = (setting w m jobid j).0;
  calls = m.calls ++ (setting w m jobid j).2;
}

-- The job is active, and its stop is in the queue.
pub record Started (w : World) (m : JobMonitor) (jobid : Str) (j : Job) (m' : JobMonitor)
    : Type 0 where
  pub valid : IsValid m'.schedule
  pub states :
      (k : Str)
      → view m'.schedule k
        ≡ ite (Str-discrete jobid k) (some (set_state active j)) (view m.schedule k)
  pub lists : m'.schedule.schedule ≡ m.schedule.schedule
  pub waiting : Perm m'.queue (item jobid j.tend jobstop ∷ m.queue)
  pub rules : m'.rules ≡ (setting w m jobid j).0
  pub sent : m'.calls ≡ m.calls ++ (setting w m jobid j).2

module _ (w : World) (m : JobMonitor) (jobid : Str) (v : IsValid m.schedule) (j : Job)
    (known : view m.schedule jobid ≡ some j) where
  set_nrs_rules-setting :
      set_nrs_rules w m jobid ≡ some (ruled w m jobid j, (setting w m jobid j).1)
  unfolding set_nrs_rules
  set_nrs_rules-setting =
      rw (get_of_job-view (λ x. x.min_read_throughput) m.schedule jobid v, known)
        (rw (get_of_job-view (λ x. x.osts) m.schedule jobid v, known))

  activate :
      (r : Schedule × Bool)
      → Updated m.schedule jobid active r
      → Returns
          (λ x. (x.1 ≡ true) × Started w m jobid j x.0)
          (let m2 = record (ruled w m jobid j) { schedule = r.0 } in
            if r.1 then push_stop m2 jobid else some (m2, false))
  unfolding push_stop
  activate r (inl (_, _, unknown)) = absurd (let no_job : ⊥ = ground arith in no_job)
  activate r (inr (i, found, done, valid, states, lists)) =
      let one : j ≡ i = some_eq (sym known ∙ found) in
      let now : view r.0 jobid ≡ some (set_state active i) = ground (arith, states jobid) in
      rw done (
        rw (get_of_job-view (λ x. x.tend) r.0 jobid valid, now)
          (Returns-bind (push-perm m.queue (item jobid i.tend jobstop)) λ q same. returns (
            refl,
            record {
              valid = valid;
              states = λ k. rw one (states k);
              lists = lists;
              waiting = rw one same;
              rules = refl;
              sent = refl;
            },
          )))

abbrev ScheduledOutcome : World → JobMonitor → Str → Job → JobMonitor × Bool → Type 0
ScheduledOutcome w m jobid j r =
    (((setting w m jobid j).1 ≡ false) × (r ≡ (ruled w m jobid j, false)))
    ⊎ (((setting w m jobid j).1 ≡ true) × (r.1 ≡ true) × Started w m jobid j r.0)

start_scheduled-outcome :
    (w : World) (m : JobMonitor) (jobid : Str)
    → IsValid m.schedule
    → (j : Job) → view m.schedule jobid ≡ some j
    → Returns (ScheduledOutcome w m jobid j) (start_scheduled w m jobid)
unfolding start_scheduled
start_scheduled-outcome w m jobid v j known =
    rw (set_nrs_rules-setting w m jobid v j known) (elim (Bool-cases (setting w m jobid j).1) [
      | inl set ↦ rw set (
          Returns-bind (update_job_correct m.schedule jobid active v) λ r u.
            Returns-map (activate w m jobid v j known r u)
              λ x (done, started). inr (set, done, started))
      | inr refused ↦ rw refused (returns (inl (refused, refl)))
    ])

-- What StartJob returns: nothing is done for a job that is unknown or not scheduled; where the
-- rules cannot be set the job, its lists and the queue stay as they were; and otherwise the job is active.
abbrev pub StartOutcome : World → JobMonitor → Str → JobMonitor × Bool → Type 0
StartOutcome w m jobid r =
    ((r ≡ (m, false)) × ((j : Job) → view m.schedule jobid ≡ some j → j.state ≢ scheduled))
    ⊎ ((j : Job) × (view m.schedule jobid ≡ some j)
        × (j.state ≡ scheduled)
        × ScheduledOutcome w m jobid j r)

-- On a valid schedule StartJob always returns, with one of three outcomes: a job that is unknown or
-- not scheduled changes nothing; a refused SetRules leaves the schedule and the queue as they were;
-- otherwise the job is active and its stop is in the queue.
pub start_job_correct :
    (w : World) (m : JobMonitor) (jobid : Str)
    → IsValid m.schedule
    → Returns (StartOutcome w m jobid) (start_job w m jobid)
unfolding start_job
start_job_correct w m jobid v = elim (Option-cases (view m.schedule jobid)) [
  | inl unknown ↦
      rw (get_of_job-view (λ x. x.state) m.schedule jobid v, unknown)
        (returns (inl (refl, λ j e. absurd (let no_job : ⊥ = ground arith in no_job))))
  | inr (j, known) ↦
      rw (get_of_job-view (λ x. x.state) m.schedule jobid v, known)
        (elim (JobState-discrete j.state scheduled) [
          | no other ↦ rw (if_neg _ other) (returns (inl (refl, λ i e. ground arith)))
          | yes ready ↦ rw (if_pos _ ready) (
              Returns-map (start_scheduled-outcome w m jobid v j known)
                λ r o. inr (j, known, ready, o))
        ])
]
