-- ===== src/System/Drain.antt =====
-- The inner loop of the monitor when everything is due.
use mathlib.Core.List.Perm
use mathlib.Core.List.{mem-cons_self, mem-cons_of_mem, not-mem-nil, forall_mem-cons}
use native.Mathlib.Bridge.{le_prop}
use qos_planner.Common.{
  ℕ, ◌≤◌, ◌<◌, ◌≡◌, ◌≢◌, refl, subst, List, [], ◌∷◌, Mem, Perm, Bool, false, none, some, Str, arith,
  Option-cases, inl, inr, Returns, returns, Returns-bind, Returns-map, Returns-both,
}
use qos_planner.Common.Map.{find}
use qos_planner.Job.{Job, JobEvent, jobstart, jobstop, active}
use qos_planner.Queue.{WaitingItem, Heap}
use qos_planner.Schedule.Valid.{IsValid, view}
use qos_planner.Monitor.{JobMonitor, World, handle, is_there_a_ready_job, monitor_loop, item}
use qos_planner.Monitor.Start.{StartOutcome, start_job_correct}
use qos_planner.Monitor.Stop.{handle-jobstop}
use qos_planner.Monitor.Loop.{weight, monitor_loop-keeps}
use qos_planner.Scheduler.Static.{Floats}
use qos_planner.Planner.{Planner}
use qos_planner.System.{started, Reach}
use qos_planner.System.Ruled.{IsRuled}
use qos_planner.System.Watch.{IsWatched}
use qos_planner.System.Rules.{Holds, handle-Holds, Reach-Holds, started-Holds}
use qos_planner.System.Events.{handle-IsWatched, Reach-IsWatched, started-IsWatched}

-- Each event that waits, and the end of each job, is at `time` or before.
pub record IsDue (time : ℕ) (m : JobMonitor) : Type 0 where
  pub events : (x : WaitingItem) → Mem x m.queue → x.time_of_event ≤ time
  pub ends : (k : Str) (j : Job) → view m.schedule k ≡ some j → j.tend ≤ time

module _ (w : World) (m : JobMonitor) (time : ℕ) (x : WaitingItem) (q : Heap) (due : IsDue time m)
    (v : IsValid m.schedule) (same : Perm (x ∷ q) m.queue) where
  abbrev popped : JobMonitor
  popped = record m { queue = q }

  rest_due : (y : WaitingItem) → Mem y q → y.time_of_event ≤ time
  rest_due y own = due.events y ((Perm.mem_iff same).0 (mem-cons_of_mem x own))

  popped-IsDue : IsDue time popped
  popped-IsDue = record { events = rest_due; ends = due.ends }

  StartOutcome-IsDue : (r : JobMonitor × Bool) → StartOutcome w popped x.jobid r → IsDue time r.0
  StartOutcome-IsDue r (inl (e, _)) = rw e popped-IsDue
  StartOutcome-IsDue r (inr (j, known, _, inl (_, e))) =
      rw e (record { events = rest_due; ends = due.ends })
  StartOutcome-IsDue r (inr (j, known, _, inr (_, _, s))) = record {
    events = λ y own. after y ((Perm.mem_iff s.waiting).0 own);
    ends = λ k i e. ground (arith, s.states k, due.ends k i, due.ends x.jobid j);
  }
    where
      after : (y : WaitingItem) → Mem y (item x.jobid j.tend jobstop ∷ q) → y.time_of_event ≤ time
      after = (forall_mem-cons λ t. le_prop).1 (due.ends x.jobid j known, rest_due)

  handle-IsDue : Returns (IsDue time) (handle w popped x.jobid x.event_type)
  unfolding handle
  handle-IsDue = by_event x.event_type
    where
      by_event : (t : JobEvent) → Returns (IsDue time) (handle w popped x.jobid t)
      by_event jobstart =
          Returns-bind (start_job_correct w popped x.jobid v)
            λ r o. returns (StartOutcome-IsDue r o)
      by_event jobstop = Returns-map (handle-jobstop w popped x.jobid v) λ m' (_, kept, views, _).
          record {
            events = λ y own. rest_due y (subst (Mem y) kept own);
            ends = λ k i e. ground (arith, views k, due.ends k i);
          }

none_ready :
    (q : Heap) (time now : ℕ)
    → ((x : WaitingItem) → Mem x q → x.time_of_event ≤ time)
    → time < now
    → is_there_a_ready_job q now ≡ false
    → q ≡ []
unfolding is_there_a_ready_job
none_ready [] time now due late quiet = refl
none_ready (top ∷ q) time now due late quiet = ground (arith, due top (mem-cons_self))

-- The invariants of the process, and that all is due.
abbrev Kept : ℕ → JobMonitor → Type 0
Kept time m = IsWatched m.schedule m.queue × Holds m × IsDue time m

handle-Kept :
    (time : ℕ) (w : World) (m : JobMonitor) (x : WaitingItem) (q : Heap)
    → Kept time m
    → Perm (x ∷ q) m.queue
    → Returns (Kept time) (handle w (record m { queue = q }) x.jobid x.event_type)
handle-Kept time w m x q (watched, holds, due) same =
    Returns-map
      (Returns-both (handle-IsWatched w m x q watched same) (
        Returns-both (handle-Holds w (record m { queue = q }) x.jobid x.event_type holds)
          (handle-IsDue w m time x q due holds.0 same)))
      λ m' (a, (b, c)). (a, b, c)

-- No event waits, no job is active, and no rules are kept.
abbrev pub IsDrained : JobMonitor → Type 0
IsDrained m =
    (m.queue ≡ [])
    × ((k : Str) (j : Job) → view m.schedule k ≡ some j → j.state ≢ active)
    × ((k : Str) → find k m.rules.active_rules ≡ none)

empty-IsDrained :
    (m : JobMonitor)
    → IsWatched m.schedule m.queue
    → IsRuled m.schedule m.rules
    → m.queue ≡ []
    → IsDrained m
empty-IsDrained m watched ruled empty = (empty, idle, unruled)
  where
    idle : (k : Str) (j : Job) → view m.schedule k ≡ some j → j.state ≢ active
    idle k j known running =
        not-mem-nil (subst (Mem (item k j.tend jobstop)) empty (watched.stops k j known running))

    unruled : (k : Str) → find k m.rules.active_rules ≡ none
    unruled k = elim (Option-cases (view m.schedule k)) [
      | inl unknown ↦ ground (arith, ruled k)
      | inr (j, known) ↦ ground (arith, ruled k, idle k j known)
    ]

module _ (floats : Floats) where
  -- From every state that the process reaches from a start without jobs: if each event that waits
  -- and the end of each job is at some time or before, the clock of the monitor is past it, and
  -- there is fuel for the events that the queue stands for, the inner loop of Monitor ends without
  -- undefined behaviour, and then no event waits, no job is active, and the rule manager keeps no
  -- rules.
  pub monitor_loop_drains :
      (limits : List (Str × floats.Float)) (s : Planner floats) (w : World)
      → (clock : ℕ → ℕ) → (fuel time : ℕ) → Reach floats (started floats limits) s
      → IsDue time s.monitor
      → ((i : ℕ) → time < clock i)
      → weight s.monitor.queue < fuel
      → Returns IsDrained (monitor_loop fuel w clock s.monitor)
  monitor_loop_drains limits s w clock fuel time r due late f =
      let watched = Reach-IsWatched floats (started-IsWatched floats limits) r in
      let holds = Reach-Holds floats (started-Holds floats limits) r in
      Returns-map
        (monitor_loop-keeps (Kept time) w (λ m p. p.1.0) (handle-Kept time w) fuel clock s.monitor
          (watched, holds, due) f)
        λ m' (p, (i, quiet)).
          empty-IsDrained m' p.0 p.1.1
            (none_ready m'.queue time (clock i) p.2.events (late i) quiet)
