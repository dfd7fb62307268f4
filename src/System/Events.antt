-- ===== src/System/Events.antt =====
-- Events and messages against the invariant of the queue, and the states that the process reaches.
use mathlib.Core.List.Perm
use qos_planner.Common.{
  ◌≡◌, refl, sym, subst, List, [], ◌∷◌, Mem, Perm, some, some_eq, Bool, Str, arith, inl, inr,
  Returns, returns, Returns-bind, Returns-map, Returns-at,
}
use qos_planner.Job.{Job, JobEvent, jobstart, jobstop, active}
use qos_planner.Queue.{WaitingItem, Heap}
use qos_planner.Queue.Contents.{Popped, pop-perm}
use qos_planner.Common.Map.{find}
use qos_planner.Schedule.Valid.{view, empty-IsValid}
use qos_planner.Monitor.{JobMonitor, World, item, handle}
use qos_planner.Monitor.Start.{StartOutcome, start_job_correct}
use qos_planner.Monitor.Stop.{handle-jobstop}
use qos_planner.Scheduler.Static.{Floats}
use qos_planner.Planner.{Planner}
use qos_planner.System.{started, Step, message, event, Reach, here, next}
use qos_planner.System.Waiting.{waiting}
use qos_planner.System.Watch.{IsWatched, forget-IsWatched, drop-IsWatched, start-IsWatched}
use qos_planner.System.Messages.{serve_message-IsWatched}

-- An event whose item has been taken from the queue.
module _ (w : World) (m : JobMonitor) (x : WaitingItem) (q : Heap)
    (v : IsWatched m.schedule m.queue) (same : Perm (x ∷ q) m.queue) where
  abbrev popped : JobMonitor
  popped = record m { queue = q }

  StartOutcome-IsWatched :
      (r : JobMonitor × Bool)
      → x.event_type ≡ jobstart
      → StartOutcome w popped x.jobid r
      → IsWatched r.0.schedule r.0.queue
  StartOutcome-IsWatched r start (inl (e, _)) =
      rw e (drop-IsWatched m.schedule m.queue q x v same start)
  StartOutcome-IsWatched r start (inr (j, known, _, inl (_, e))) =
      rw e (drop-IsWatched m.schedule m.queue q x v same start)
  StartOutcome-IsWatched r start (inr (j, known, _, inr (_, _, s))) =
      start-IsWatched m.schedule m.queue q x v same r.0.schedule r.0.queue j start known s.valid
        s.states s.waiting

  pub handle-IsWatched :
      Returns
        (λ (m' : JobMonitor). IsWatched m'.schedule m'.queue)
        (handle w popped x.jobid x.event_type)
  unfolding handle
  handle-IsWatched = by_event x.event_type refl
    where
      by_event :
          (t : JobEvent)
          → x.event_type ≡ t
          → Returns
              (λ (m' : JobMonitor). IsWatched m'.schedule m'.queue)
              (handle w popped x.jobid x.event_type)
      by_event jobstart e = rw e (
          Returns-bind (start_job_correct w popped x.jobid v.valid)
            λ r o. returns (StartOutcome-IsWatched r e o))
      by_event jobstop e = rw e (
          Returns-map (handle-jobstop w popped x.jobid v.valid) λ m' (valid, kept, views, _).
            rw kept (forget-IsWatched m.schedule m.queue q x v same m'.schedule valid views))

Popped-perm : (queue q : Heap) (x : WaitingItem) → Popped queue (some x, q) → Perm (x ∷ q) queue
Popped-perm [] q x (empty, _) = cc
Popped-perm (top ∷ rest) q x (front, same) =
    subst (λ y. Perm (y ∷ q) (top ∷ rest)) (sym (some_eq front)) (Perm.cons top same)

module _ (floats : Floats) where
  Step-IsWatched :
      {s s' : Planner floats}
      → Step floats s s'
      → IsWatched s.monitor.schedule s.monitor.queue
      → IsWatched s'.monitor.schedule s'.monitor.queue
  Step-IsWatched (message {s} o m proper e) v =
      (Returns-at (serve_message-IsWatched floats o s m v proper) e).0
  Step-IsWatched (event {s} {x} {q} w front e) v =
      Returns-at
        (handle-IsWatched w s.monitor x q v
          (Popped-perm s.monitor.queue q x (Returns-at (pop-perm s.monitor.queue) front)))
        e

  pub Reach-IsWatched :
      {s s' : Planner floats}
      → IsWatched s.monitor.schedule s.monitor.queue
      → Reach floats s s'
      → IsWatched s'.monitor.schedule s'.monitor.queue
  Reach-IsWatched v here = v
  Reach-IsWatched v (next r st) = Step-IsWatched st (Reach-IsWatched v r)

  pub started-IsWatched :
      (limits : List (Str × floats.Float)) → IsWatched (started floats limits).monitor.schedule []
  unfolding waiting view find
  started-IsWatched limits = record {
    valid = empty-IsValid;
    single = λ k. omega arith;
    stops = λ k j e act. absurd (let no_job : ⊥ = cc in no_job);
    unknown = λ k e. refl;
  }

  -- In every state that the process reaches from a start without jobs, by proper messages and
  -- events in any order, the stop of each active job waits in the queue, at the end of that job.
  pub active_job_stops :
      (limits : List (Str × floats.Float)) (s : Planner floats) (k : Str) (j : Job)
      → Reach floats (started floats limits) s
      → view s.monitor.schedule k ≡ some j
      → j.state ≡ active
      → Mem (item k j.tend jobstop) s.monitor.queue
  active_job_stops limits s k j r known running =
      (Reach-IsWatched (started-IsWatched limits) r).stops k j known running
