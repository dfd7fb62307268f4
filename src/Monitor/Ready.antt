-- ===== src/Monitor/Ready.antt =====
-- Which jobs the monitor takes up.
use qos_planner.Common.{
  ℕ, ◌≤◌, ◌≡◌, Mem, Bool, true, false, arith, Option-cases, inl, inr, Perm, Returns, returns,
  Returns-bind, refl, ◌∷◌,
}
use qos_planner.Queue.{WaitingItem, Heap, peek}
use qos_planner.Queue.Contents.{push-perm}
use qos_planner.Queue.Order.{IsMaxHeap, peek_latest}
use qos_planner.Job.{Job, jobstart}
use qos_planner.Monitor.{JobMonitor, item, register_job, is_there_a_ready_job}

-- As long as a queue that is a heap with its latest item at the root holds any item that is not
-- due, no item counts as ready, whatever else is due.
pub is_there_a_ready_job-blocked :
    (q : Heap) (later : WaitingItem) (now : ℕ)
    → IsMaxHeap q
    → Mem later q
    → now ≤ later.time_of_event
    → is_there_a_ready_job q now ≡ false
unfolding is_there_a_ready_job
is_there_a_ready_job-blocked q later now heap m late = elim (Option-cases (peek q)) [
  | inl e ↦ rw (e, is_there_a_ready_job)
  | inr (top, e) ↦ ground (arith, peek_latest q top later heap e m)
]

-- A registration succeeds, and puts the start of the job into the queue.
pub record Registered (m : JobMonitor) (job : Job) (r : JobMonitor × Bool) : Type 0 where
  pub succeeded : r.1 ≡ true
  pub waiting : Perm r.0.queue (item job.jobid job.tstart jobstart ∷ m.queue)
  pub schedule : r.0.schedule ≡ m.schedule
  pub rules : r.0.rules ≡ m.rules

pub register_job-Registered :
    (m : JobMonitor) (job : Job) → Returns (Registered m job) (register_job m job)
unfolding register_job
register_job-Registered m job =
    Returns-bind (push-perm m.queue (item job.jobid job.tstart jobstart))
      λ q same. returns (record { succeeded = refl; waiting = same; schedule = refl; rules = refl })
