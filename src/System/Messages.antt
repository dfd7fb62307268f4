-- ===== src/System/Messages.antt =====
-- Messages against the invariant of the queue.
use qos_planner.Common.{
  ℕ, ◌≡◌, ap, List, [], ◌∷◌, length, Option, none, Bool, Str, Str-discrete, ite, inl, inr, Returns,
  returns, Returns-bind,
}
use qos_planner.Job.{job_of_id}
use qos_planner.Queue.Contents
use qos_planner.Schedule.{Schedule}
use qos_planner.Schedule.Valid.{IsValid, view}
use qos_planner.Schedule.Remove.{Removed, remove_job_correct}
use qos_planner.Monitor.{JobMonitor}
use qos_planner.Monitor.Stop.{Removed-view}
use qos_planner.Monitor.Unregister.{Unregistered, unregister_job_correct}
use qos_planner.Message.{Request, Reply}
use qos_planner.Scheduler.Static.{Floats}
use qos_planner.Planner.{Planner, Answer, build_job, remove_all, serve_job_remove}
use qos_planner.Planner.Submission.{SubmissionOutcome}
use qos_planner.Planner.Removal.{forgotten}
use qos_planner.Server.{Outside, Parsed, serve_message}
use qos_planner.Server.Replies.{expected, serve_message-Keeps, IsProperMessage}
use qos_planner.System.Waiting.{waiting-absent}
use qos_planner.System.Watch.{IsWatched, forget-IsWatched, absent-IsWatched, admit-IsWatched}

abbrev Watches : {floats : Floats} → Planner floats → Type 0
Watches s = IsWatched s.monitor.schedule s.monitor.queue

removal-IsWatched :
    (m : JobMonitor) (id : Str) (m' : JobMonitor × Bool) (r : Schedule × Bool)
    → IsWatched m.schedule m.queue
    → Unregistered m id m'
    → Removed m'.0.schedule id r
    → IsWatched r.0 m'.0.queue
removal-IsWatched m id m' r w u removed = by_queue u.1.1
  where
    valid : IsValid r.0
    valid = (Removed-view m'.0.schedule id id r u.2 removed).0

    views : (k : Str) → view r.0 k ≡ ite (Str-discrete id k) none (view m.schedule k)
    views k = forgotten m id k m' r u removed

    by_queue : Contents.Removed id m.queue (u.1.0, m'.0.queue) → IsWatched r.0 m'.0.queue
    by_queue (inl (_, (it, own, same))) =
        forget-IsWatched m.schedule m.queue m'.0.queue it w same r.0 valid λ k. rw own (views k)
    by_queue (inr (_, kept, absent)) = rw kept (
        absent-IsWatched m.schedule r.0 m.queue id w (waiting-absent id m.queue absent) valid views)

module _ (floats : Floats) where
  remove_all-IsWatched :
      (s : Planner floats) (ids : List Str)
      → Watches s
      → Returns (λ (s' : Planner floats). Watches s') (remove_all floats s ids)
  unfolding remove_all
  remove_all-IsWatched s [] w = returns w
  remove_all-IsWatched s (id ∷ ids) w =
      Returns-bind (unregister_job_correct s.monitor (job_of_id id) w.valid) λ m u.
        Returns-bind (remove_job_correct m.0.schedule id u.2) λ r removed.
          remove_all-IsWatched (record s { monitor = record m.0 { schedule = r.0 } }) ids
            (removal-IsWatched s.monitor id m r w u removed)

  SubmissionOutcome-IsWatched :
      (o : Outside) (s : Planner floats) (request : Request) (tend : ℕ) (r : Answer floats)
      → Watches s
      → SubmissionOutcome floats o.lustre o.visit o.stack s o.now request.resource_request tend r
      → Watches r.0
  SubmissionOutcome-IsWatched o s request tend (s', b, reply) w (inl (_, same, _, _)) = rw same w
  SubmissionOutcome-IsWatched o s request tend (s', b, reply) w (inr (inl (_, same, _, _))) =
      rw same w
  SubmissionOutcome-IsWatched o s request tend (s', b, reply) w
        (inr (inr (osts, _, inl (same, _), _))) =
      rw (ap (λ (p : Planner floats × Bool). p.0) same) w
  SubmissionOutcome-IsWatched o s request tend (s', b, reply) w
        (inr (inr (osts, _, inr (_, _, free, a), _))) =
      admit-IsWatched s.monitor.schedule s'.monitor.schedule s.monitor.queue s'.monitor.queue
        (build_job o.visit request.resource_request o.now tend osts) w free a.valid a.states
        a.waiting

  pub serve_message-IsWatched :
      (o : Outside) (s : Planner floats) (m : Parsed)
      → IsWatched s.monitor.schedule s.monitor.queue
      → IsProperMessage o m
      → Returns
          (λ (r : Planner floats × List (Option Reply)).
            IsWatched r.0.monitor.schedule r.0.monitor.queue × (length r.1 ≡ expected m))
          (serve_message floats o s m)
  unfolding serve_job_remove
  serve_message-IsWatched =
      serve_message-Keeps floats Watches (λ s w. w.valid) SubmissionOutcome-IsWatched
        λ s ids w. Returns-bind (remove_all-IsWatched s ids w) λ s' w'. returns w'
