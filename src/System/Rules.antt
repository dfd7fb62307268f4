-- ===== src/System/Rules.antt =====
-- Messages and events against the rules of the active jobs.
use qos_planner.Common.{
  ℕ, ◌≡◌, refl, ap, List, [], ◌∷◌, Option, Bool, Str, length, inl, inr, Returns, returns,
  Returns-bind, Returns-map, Returns-at,
}
use qos_planner.Common.Map.{find}
use qos_planner.Job.{JobEvent, jobstart, jobstop, job_of_id}
use qos_planner.Schedule.Valid.{IsValid, view, empty-IsValid}
use qos_planner.Schedule.Remove.{remove_job_correct}
use qos_planner.Rules.{is_some}
use qos_planner.Monitor.{JobMonitor, World, handle}
use qos_planner.Monitor.Start.{StartOutcome, start_job_correct}
use qos_planner.Monitor.Stop.{Removed-view, handle-jobstop}
use qos_planner.Monitor.Unregister.{Unregistered-Retracted, unregister_job_correct}
use qos_planner.Message.{Request, Reply}
use qos_planner.Scheduler.Static.{Floats}
use qos_planner.Planner.{Planner, Answer, build_job, remove_all, serve_job_remove}
use qos_planner.Planner.Submission.{SubmissionOutcome}
use qos_planner.Planner.Removal.{forgotten}
use qos_planner.Server.{Outside, Parsed, serve_message}
use qos_planner.Server.Replies.{IsProperMessage, expected, serve_message-Keeps}
use qos_planner.System.{started, Step, message, event, Reach, here, next}
use qos_planner.System.Ruled.{is_active, IsRuled, retract-IsRuled, start-IsRuled, admit-IsRuled}

abbrev pub Holds : JobMonitor → Type 0
Holds m = IsValid m.schedule × IsRuled m.schedule m.rules

start-IsValid :
    (w : World) (m : JobMonitor) (jobid : Str) (r : JobMonitor × Bool)
    → IsValid m.schedule
    → StartOutcome w m jobid r
    → IsValid r.0.schedule
start-IsValid w m jobid r v (inl (same, _)) = rw same v
start-IsValid w m jobid r v (inr (j, _, _, inl (_, same))) = rw same v
start-IsValid w m jobid r v (inr (j, _, _, inr (_, _, s))) = s.valid

pub handle-Holds :
    (w : World) (m : JobMonitor) (jobid : Str) (event : JobEvent)
    → Holds m
    → Returns Holds (handle w m jobid event)
unfolding handle
handle-Holds w m jobid jobstart (v, ruled) =
    Returns-bind (start_job_correct w m jobid v)
      λ r o. returns (start-IsValid w m jobid r v o, start-IsRuled w m jobid r ruled o)
handle-Holds w m jobid jobstop (v, ruled) =
    Returns-map (handle-jobstop w m jobid v) λ m' (valid, _, views, taken).
      (valid, retract-IsRuled m jobid m'.rules m'.schedule ruled taken views)

module _ (floats : Floats) where
  remove_all-Holds :
      (s : Planner floats) (ids : List Str)
      → Holds s.monitor
      → Returns (λ (s' : Planner floats). Holds s'.monitor) (remove_all floats s ids)
  unfolding remove_all
  remove_all-Holds s [] h = returns h
  remove_all-Holds s (id ∷ ids) (v, ruled) =
      Returns-bind (unregister_job_correct s.monitor (job_of_id id) v) λ m u.
        Returns-bind (remove_job_correct m.0.schedule id u.2) λ r removed.
          remove_all-Holds (record s { monitor = record m.0 { schedule = r.0 } }) ids
            (
              (Removed-view m.0.schedule id id r u.2 removed).0,
              retract-IsRuled s.monitor id m.0.rules r.0 ruled
                  (Unregistered-Retracted s.monitor id m u)
                  λ k. forgotten s.monitor id k m r u removed,
            )

  SubmissionOutcome-Holds :
      (o : Outside) (s : Planner floats) (request : Request) (tend : ℕ) (r : Answer floats)
      → Holds s.monitor
      → SubmissionOutcome floats o.lustre o.visit o.stack s o.now request.resource_request tend r
      → Holds r.0.monitor
  SubmissionOutcome-Holds o s request tend (s', b, reply) h (inl (_, same, _, _)) = rw same h
  SubmissionOutcome-Holds o s request tend (s', b, reply) h (inr (inl (_, same, _, _))) = rw same h
  SubmissionOutcome-Holds o s request tend (s', b, reply) h
        (inr (inr (osts, _, inl (same, _), _))) =
      rw (ap (λ (p : Planner floats × Bool). p.0) same) h
  SubmissionOutcome-Holds o s request tend (s', b, reply) h
        (inr (inr (osts, _, inr (_, _, free, a), _))) =
      (
        a.valid,
        admit-IsRuled s.monitor.schedule s'.monitor.schedule s.monitor.rules s'.monitor.rules
            (build_job o.visit request.resource_request o.now tend osts) h.1 a.rules free a.states,
      )

  serve_message-Holds :
      (o : Outside) (s : Planner floats) (m : Parsed)
      → Holds s.monitor
      → IsProperMessage o m
      → Returns
          (λ (r : Planner floats × List (Option Reply)).
            Holds r.0.monitor × (length r.1 ≡ expected m))
          (serve_message floats o s m)
  unfolding serve_job_remove
  serve_message-Holds =
      serve_message-Keeps floats (λ s. Holds s.monitor) (λ s h. h.0) SubmissionOutcome-Holds
        λ s ids h. Returns-bind (remove_all-Holds s ids h) λ s' h'. returns h'

  Step-Holds : {s s' : Planner floats} → Step floats s s' → Holds s.monitor → Holds s'.monitor
  Step-Holds (message {s} o m proper e) h = (Returns-at (serve_message-Holds o s m h proper) e).0
  Step-Holds (event {s} {x} {q} w front e) h =
      Returns-at (handle-Holds w (record s.monitor { queue = q }) x.jobid x.event_type h) e

  pub Reach-Holds : {s s' : Planner floats} → Holds s.monitor → Reach floats s s' → Holds s'.monitor
  Reach-Holds h here = h
  Reach-Holds h (next r st) = Step-Holds st (Reach-Holds h r)

  pub started-Holds : (limits : List (Str × floats.Float)) → Holds (started floats limits).monitor
  unfolding view find
  started-Holds limits = (empty-IsValid, λ k. refl)

  -- In every state that the process reaches from a start without jobs, by proper messages and
  -- events in any order, each handled as a whole, the rule manager keeps rules for a job exactly if
  -- the job is active in the schedule.
  pub rules-active :
      (limits : List (Str × floats.Float)) (s : Planner floats) (k : Str)
      → Reach floats (started floats limits) s
      → is_some (find k s.monitor.rules.active_rules) ≡ is_active (view s.monitor.schedule k)
  rules-active limits s k r = (Reach-Holds (started-Holds limits) r).1 k
