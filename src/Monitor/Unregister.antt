-- ===== src/Monitor/Unregister.antt =====
-- `UnregisterJob`.
use qos_planner.Common.{
  ◌≡◌, ◌≢◌, refl, ◌∙◌, Bool, true, none, some, ite, if_pos, if_neg, Str, arith, Option-cases, inl,
  inr, Returns, returns, Returns-bind, Returns-map,
}
use qos_planner.Job.{Job, active, done, JobState-discrete, set_state}
use qos_planner.Queue.{Heap}
use qos_planner.Queue.Contents
use qos_planner.Queue.Contents.{remove-perm}
use qos_planner.Schedule.Valid.{IsValid, view}
use qos_planner.Schedule.View.{get_of_job-view}
use qos_planner.Rules.{remove_rules}
use qos_planner.Monitor.{JobMonitor, unregister_job}
use qos_planner.Monitor.Stop.{StopOutcome, Retracted, stop_job_correct}

-- What UnregisterJob does: it succeeds, takes an item of the job out of the queue if there is one,
-- makes an active job done and takes its rules back, and leaves the job and the rules otherwise, and
-- every other job, as they were.
abbrev pub Unregistered : JobMonitor → Str → JobMonitor × Bool → Type 0
Unregistered m jobid r =
    (r.1 ≡ true)
    × ((b : Bool) × Contents.Removed jobid m.queue (b, r.0.queue))
    × IsValid r.0.schedule
    × ((j : Job)
        → view m.schedule jobid ≡ some j
        → view r.0.schedule jobid
          ≡ some (ite (JobState-discrete j.state active) (set_state done j) j))
    × ((k : Str) → jobid ≢ k → view r.0.schedule k ≡ view m.schedule k)
    × (view m.schedule jobid ≡ none → r.0.rules ≡ m.rules)
    × ((j : Job)
        → view m.schedule jobid ≡ some j
        → r.0.rules ≡ ite (JobState-discrete j.state active) (remove_rules m.rules jobid).0 m.rules)

StopOutcome-Unregistered :
    (m : JobMonitor) (jobid : Str) (b : Bool) (q : Heap) (j : Job) (r : JobMonitor × Bool)
    → Contents.Removed jobid m.queue (b, q)
    → view m.schedule jobid ≡ some j
    → j.state ≡ active
    → StopOutcome (record m { queue = q }) jobid r
    → Unregistered m jobid r
StopOutcome-Unregistered m jobid b q j r removed known running (inl (_, idle)) =
    absurd (idle j known running)
StopOutcome-Unregistered m jobid b q j r removed known running (inr (i, found, _, ok, s)) = (
  ok,
  (b, rw s.queue removed),
  s.valid,
  (λ x e. ground (arith, s.states jobid)),
  (λ k ne. ground (arith, s.states k)),
  (λ unknown. absurd (let no_job : ⊥ = ground arith in no_job)),
  λ x e. ground (arith, s.rules),
)

-- On a valid schedule UnregisterJob returns true, takes an item of the job out of the queue if
-- there is one, makes an active job done and takes its rules back, and otherwise leaves the job and
-- all rules as they were; every other job stays as it was.
pub unregister_job_correct :
    (m : JobMonitor) (job : Job)
    → IsValid m.schedule
    → Returns (Unregistered m job.jobid) (unregister_job m job)
unfolding unregister_job
unregister_job_correct m job v = Returns-bind (remove-perm m.queue job.jobid) λ (b, q) removed.
    elim (Option-cases (view m.schedule job.jobid)) [
      | inl unknown ↦
          rw (get_of_job-view (λ x. x.state) m.schedule job.jobid v, unknown)
            (returns (
              refl,
              (b, removed),
              v,
              (λ j e. absurd (let no_job : ⊥ = ground arith in no_job)),
              (λ k ne. refl),
              (λ e. refl),
              λ j e. absurd (let no_job : ⊥ = ground arith in no_job),
            ))
      | inr (j, known) ↦
          rw (get_of_job-view (λ x. x.state) m.schedule job.jobid v, known)
            (elim (JobState-discrete j.state active) [
              | no other ↦ rw (if_neg _ other) (
                  returns (
                    refl,
                    (b, removed),
                    v,
                    (λ i e. ground arith),
                    (λ k ne. refl),
                    (λ e. refl),
                    λ i e. ground arith,
                  ))
              | yes running ↦ rw (if_pos _ running) (
                  Returns-map (stop_job_correct (record m { queue = q }) job.jobid v)
                    λ r o. StopOutcome-Unregistered m job.jobid b q j r removed known running o)
            ])
    ]

pub Unregistered-Retracted :
    (m : JobMonitor) (jobid : Str) (r : JobMonitor × Bool)
    → Unregistered m jobid r
    → Retracted m jobid r.0.rules
Unregistered-Retracted m jobid r (_, _, _, _, _, untouched, taken) =
    elim (Option-cases (view m.schedule jobid)) [
      | inl unknown ↦
          inl (untouched unknown, λ j e. absurd (let no_job : ⊥ = ground arith in no_job))
      | inr (j, known) ↦ elim (JobState-discrete j.state active) [
        | yes running ↦ inr (taken j known ∙ rw (if_pos _ running))
        | no other ↦ inl (taken j known ∙ rw (if_neg _ other), λ i e. ground arith)
      ]
    ]
