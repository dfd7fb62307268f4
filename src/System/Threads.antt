-- ===== src/System/Threads.antt =====
-- The monitor's thread (src/common/JobMonitor.cpp, Monitor) and the server's thread
-- (src/server/Server.cpp, with ServeJobRemove of src/common/Planner.cpp), interleaved: the monitor pops
-- an item and handles it in two steps, and the removal of a job is two steps as well, UnregisterJob and
-- RemoveJob of the schedule. Any other message is one step.
use qos_planner.Common.{
  ℕ, ◌≡◌, refl, List, Bool, true, Option, none, some, Str, Returns-inv, Returns-at,
}
use qos_planner.Job.{job_of_id}
use qos_planner.Queue.{WaitingItem, Heap, pop}
use qos_planner.Schedule.{Schedule, remove_job}
use qos_planner.Schedule.Valid.{IsValid, empty-IsValid}
use qos_planner.Schedule.Remove.{remove_job_correct}
use qos_planner.Monitor.{JobMonitor, World, is_there_a_ready_job, handle, unregister_job}
use qos_planner.Monitor.Loop.{handle-Lighter}
use qos_planner.Monitor.Stop.{Removed-view}
use qos_planner.Monitor.Unregister.{unregister_job_correct}
use qos_planner.Message.{Reply}
use qos_planner.Scheduler.Static.{Floats}
use qos_planner.Planner.{Planner}
use qos_planner.Server.{Outside, Parsed, serve_message}
use qos_planner.Server.Replies.{IsProperMessage, serve_message-IsValid}
use qos_planner.System.{started}

module _ (floats : Floats) where
  -- `popped` is the item that the monitor's thread has popped and not yet handled, `removing` the id
  -- that the server's thread has unregistered and not yet taken out of the schedule.
  pub record Process : Type 0 where
    pub planner : Planner floats
    pub popped : Option WaitingItem
    pub removing : Option Str

  abbrev pub with_monitor : Process → JobMonitor → Planner floats
  with_monitor s m = record s.planner { monitor = m }

  pub data Step (s : Process) : Process → Type 0 where
    take :
        (now : ℕ) {x : WaitingItem} {q : Heap}
        → s.popped ≡ none
        → is_there_a_ready_job s.planner.monitor.queue now ≡ true
        → pop s.planner.monitor.queue ≡ some (some x, q)
        → Step s (record s {
          planner = with_monitor s (record s.planner.monitor { queue = q });
          popped = some x;
        })
    work :
        (w : World) {x : WaitingItem} {m : JobMonitor}
        → s.popped ≡ some x
        → handle w s.planner.monitor x.jobid x.event_type ≡ some m
        → Step s (record s { planner = with_monitor s m; popped = none })
    unregister :
        (id : Str) {m : JobMonitor} {b : Bool}
        → s.removing ≡ none
        → unregister_job s.planner.monitor (job_of_id id) ≡ some (m, b)
        → Step s (record s { planner = with_monitor s m; removing = some id })
    forget :
        {id : Str} {t : Schedule} {b : Bool}
        → s.removing ≡ some id
        → remove_job s.planner.monitor.schedule id ≡ some (t, b)
        → Step s (record s {
          planner = with_monitor s (record s.planner.monitor { schedule = t });
          removing = none;
        })
    message :
        (o : Outside) (m : Parsed) {p : Planner floats} {sent : List (Option Reply)}
        → s.removing ≡ none
        → IsProperMessage o m
        → serve_message floats o s.planner m ≡ some (p, sent)
        → Step s (record s { planner = p })

  pub data Reach (s : Process) : Process → Type 0 where
    here : Reach s s
    next : {t u : Process} → Reach s t → Step t u → Reach s u

  abbrev pub at_rest : Planner floats → Process
  at_rest p = record { planner = p; popped = none; removing = none }

  abbrev HasValid : Process → Type 0
  HasValid s = IsValid s.planner.monitor.schedule

  Step-IsValid : {s t : Process} → Step s t → HasValid s → HasValid t
  Step-IsValid (take now idle ready e) v = v
  Step-IsValid {s} (work w {x} busy e) v =
      (Returns-at (handle-Lighter w s.planner.monitor x.jobid x.event_type v) e).0
  Step-IsValid {s} (unregister id idle e) v =
      (Returns-at (unregister_job_correct s.planner.monitor (job_of_id id) v) e).2
  Step-IsValid {s} (forget {id} {t} {b} busy e) v =
      let removed = Returns-at (remove_job_correct s.planner.monitor.schedule id v) e in
      (Removed-view s.planner.monitor.schedule id id (t, b) v removed).0
  Step-IsValid {s} (message o m idle proper e) v =
      (Returns-at (serve_message-IsValid floats o s.planner m v proper) e).0

  Reach-IsValid : {s t : Process} → HasValid s → Reach s t → HasValid t
  Reach-IsValid v here = v
  Reach-IsValid v (next r st) = Step-IsValid st (Reach-IsValid v r)

  -- The schedule is valid, and each thread that is in the middle of its work can go on.
  abbrev pub GoesOn : Process → Type 0
  GoesOn s =
      IsValid s.planner.monitor.schedule
      × ((w : World) (x : WaitingItem)
          → s.popped ≡ some x
          → (t : Process) × Step s t × (t.popped ≡ none))
      × ((id : Str) → s.removing ≡ some id → (t : Process) × Step s t × (t.removing ≡ none))

  -- However the pops and the events of the monitor, the two halves of a removal, and other proper
  -- messages interleave, from a start without jobs: the schedule is valid, and a thread that is
  -- between two of its steps can do the next one without undefined behaviour.
  pub threads_go_on :
      (limits : List (Str × floats.Float)) (s : Process)
      → Reach (at_rest (started floats limits)) s
      → GoesOn s
  threads_go_on limits s r =
      let v = Reach-IsValid empty-IsValid r in
      (
        v,
        (λ w x busy.
            let (m, e, _) =
              Returns-inv (handle-Lighter w s.planner.monitor x.jobid x.event_type v) in
            (_, work w busy e, refl)),
        λ id busy.
            let ((t, b), e, _) = Returns-inv (remove_job_correct s.planner.monitor.schedule id v) in
            (_, forget busy e, refl),
      )
