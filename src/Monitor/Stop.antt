-- ===== src/Monitor/Stop.antt =====
-- `StopJob`, and `Handle` of a stop.
use qos_planner.Common.{
  ◌≡◌, ◌≢◌, ◌⊎◌, refl, sym, ap, ◌∙◌, ◌++◌, Bool, true, false, none, some, some_eq, ite, if_pos,
  if_neg, Str, Str-discrete, arith, Option-cases, inl, inr, Returns, returns, Returns-bind,
  Returns-map,
}
use qos_planner.Job.{Job, jobstop, active, done, JobState-discrete, set_state}
use qos_planner.Schedule.{Schedule}
use qos_planner.Schedule.Valid.{IsValid, view}
use qos_planner.Schedule.Update.{Updated, update_job_correct}
use qos_planner.Schedule.Remove.{Removed, remove_job_correct}
use qos_planner.Schedule.View.{get_of_job-view}
use qos_planner.Rules.{RuleManager, remove_rules}
use qos_planner.Monitor.{JobMonitor, World, stop_active, stop_job, handle}

-- The job is done, and its rules are taken back.
pub record Stopped (m : JobMonitor) (jobid : Str) (j : Job) (m' : JobMonitor) : Type 0 where
  pub valid : IsValid m'.schedule
  pub states :
      (k : Str)
      → view m'.schedule k
        ≡ ite (Str-discrete jobid k) (some (set_state done j)) (view m.schedule k)
  pub lists : m'.schedule.schedule ≡ m.schedule.schedule
  pub queue : m'.queue ≡ m.queue
  pub rules : m'.rules ≡ (remove_rules m.rules jobid).0
  pub sent : m'.calls ≡ m.calls ++ (remove_rules m.rules jobid).2

stop_active-Stopped :
    (m : JobMonitor) (jobid : Str) (j : Job)
    → IsValid m.schedule
    → view m.schedule jobid ≡ some j
    → Returns
        (λ (r : JobMonitor × Bool). (r.1 ≡ true) × Stopped m jobid j r.0)
        (stop_active m jobid)
unfolding stop_active
stop_active-Stopped m jobid j v known =
    Returns-bind (update_job_correct m.schedule jobid done v) λ r u. finish r u
  where
    finish :
        (r : Schedule × Bool)
        → Updated m.schedule jobid done r
        → Returns
            (λ (x : JobMonitor × Bool). (x.1 ≡ true) × Stopped m jobid j x.0)
            (some (
              record m {
                rules = (remove_rules m.rules jobid).0;
                calls = m.calls ++ (remove_rules m.rules jobid).2;
                schedule = r.0;
              },
              r.1,
            ))
    finish r (inl (_, _, unknown)) = absurd (let no_job : ⊥ = ground arith in no_job)
    finish r (inr (i, found, ok, valid, states, lists)) =
        let one : j ≡ i = some_eq (sym known ∙ found) in
        returns (
          ok,
          record {
            valid = valid;
            states = λ k. rw one (states k);
            lists = lists;
            queue = refl;
            rules = refl;
            sent = refl;
          },
        )

-- What StopJob returns: nothing is done for a job that is unknown or not active; an active one is
-- stopped, whether or not the rule manager had rules to remove.
abbrev pub StopOutcome : JobMonitor → Str → JobMonitor × Bool → Type 0
StopOutcome m jobid r =
    ((r ≡ (m, false)) × ((j : Job) → view m.schedule jobid ≡ some j → j.state ≢ active))
    ⊎ ((j : Job) × (view m.schedule jobid ≡ some j)
        × (j.state ≡ active)
        × (r.1 ≡ true)
        × Stopped m jobid j r.0)

-- On a valid schedule StopJob always returns; it does nothing for a job that is unknown or not
-- active, and makes an active one done and takes its rules back, whether or not there were rules.
pub stop_job_correct :
    (m : JobMonitor) (jobid : Str)
    → IsValid m.schedule
    → Returns (StopOutcome m jobid) (stop_job m jobid)
unfolding stop_job
stop_job_correct m jobid v = elim (Option-cases (view m.schedule jobid)) [
  | inl unknown ↦
      rw (get_of_job-view (λ x. x.state) m.schedule jobid v, unknown)
        (returns (inl (refl, λ j e. absurd (let no_job : ⊥ = ground arith in no_job))))
  | inr (j, known) ↦
      rw (get_of_job-view (λ x. x.state) m.schedule jobid v, known)
        (elim (JobState-discrete j.state active) [
          | no other ↦ rw (if_neg _ other) (returns (inl (refl, λ i e. ground arith)))
          | yes running ↦ rw (if_pos _ running) (
              Returns-map (stop_active-Stopped m jobid j v known)
                λ r o. inr (j, known, running, o.0, o.1))
        ])
]

StopOutcome-IsValid :
    (m : JobMonitor) (jobid : Str) (r : JobMonitor × Bool)
    → IsValid m.schedule
    → StopOutcome m jobid r
    → IsValid r.0.schedule
StopOutcome-IsValid m jobid r v (inl (same, _)) = rw same v
StopOutcome-IsValid m jobid r v (inr (j, _, _, _, s)) = s.valid

-- What a stop leaves of the other jobs.
StopOutcome-others :
    (m : JobMonitor) (jobid k : Str) (r : JobMonitor × Bool)
    → jobid ≢ k
    → StopOutcome m jobid r
    → (view r.0.schedule k ≡ view m.schedule k) × (r.0.queue ≡ m.queue)
StopOutcome-others m jobid k r ne (inl (same, _)) = rw same (refl, refl)
StopOutcome-others m jobid k r ne (inr (j, _, _, _, s)) = (ground (arith, s.states k), s.queue)

pub Removed-view :
    (s : Schedule) (jobid k : Str) (r : Schedule × Bool)
    → IsValid s
    → Removed s jobid r
    → IsValid r.0 × (view r.0 k ≡ ite (Str-discrete jobid k) none (view s k))
Removed-view s jobid k r v (inl (_, same, unknown)) = rw same (
  v,
  elim (Str-discrete jobid k) [
    | yes hit ↦ rw (if_pos _ hit, ← hit) unknown
    | no miss ↦ rw (if_neg _ miss)
  ],
)
Removed-view s jobid k r v (inr (j, _, _, valid, views, _)) = (valid, views k)

-- The rules of the job are taken back, or it was not active, and no rule changes.
abbrev pub Retracted : JobMonitor → Str → RuleManager → Type 0
Retracted m jobid rules =
    ((rules ≡ m.rules) × ((j : Job) → view m.schedule jobid ≡ some j → j.state ≢ active))
    ⊎ (rules ≡ (remove_rules m.rules jobid).0)

StopOutcome-Retracted :
    (m : JobMonitor) (jobid : Str) (r : JobMonitor × Bool)
    → StopOutcome m jobid r
    → Retracted m jobid r.0.rules
StopOutcome-Retracted m jobid r (inl (same, idle)) =
    inl (ap (λ (x : JobMonitor × Bool). x.0.rules) same, idle)
StopOutcome-Retracted m jobid r (inr (j, _, _, _, s)) = inr s.rules

-- On a valid schedule a stop event, whatever the state of its job, ends with that job unknown to
-- the schedule, which stays valid, and with the other jobs and the queue as they were; the rules of
-- the job are taken back, or it was not active and no rule changes.
pub handle-jobstop :
    (w : World) (m : JobMonitor) (jobid : Str)
    → IsValid m.schedule
    → Returns
        (λ m'.
          IsValid m'.schedule
          × (m'.queue ≡ m.queue)
          × ((k : Str) → view m'.schedule k ≡ ite (Str-discrete jobid k) none (view m.schedule k))
          × Retracted m jobid m'.rules)
        (handle w m jobid jobstop)
unfolding handle
handle-jobstop w m jobid v = Returns-bind (stop_job_correct m jobid v) λ r o.
    let valid = StopOutcome-IsValid m jobid r v o in
    Returns-bind (remove_job_correct r.0.schedule jobid valid) λ s removed. returns (
      (Removed-view r.0.schedule jobid jobid s valid removed).0,
      queue_kept r o,
      (λ k. (Removed-view r.0.schedule jobid k s valid removed).1 ∙ others r o k),
      StopOutcome-Retracted m jobid r o,
    )
  where
    queue_kept : (r : JobMonitor × Bool) → StopOutcome m jobid r → r.0.queue ≡ m.queue
    queue_kept r (inl (same, _)) = ap (λ (x : JobMonitor × Bool). x.0.queue) same
    queue_kept r (inr (j, _, _, _, s)) = s.queue

    others :
        (r : JobMonitor × Bool)
        → StopOutcome m jobid r
        → (k : Str)
        → ite (Str-discrete jobid k) none (view r.0.schedule k)
          ≡ ite (Str-discrete jobid k) none (view m.schedule k)
    others r o k = elim (Str-discrete jobid k) [
      | yes hit ↦ rw (if_pos _ hit, if_pos _ hit)
      | no miss ↦ rw (if_neg _ miss, if_neg _ miss) (StopOutcome-others m jobid k r miss o).0
    ]
