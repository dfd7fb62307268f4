-- ===== src/System.antt =====
-- The whole server process: client messages (src/server/Server.cpp) and the events of the monitor's
-- queue (src/common/JobMonitor.cpp), in any order. A message, or an event from its `Pop` on, is one step
-- here; what the threads do to each other inside of these is left out.
pub mod Waiting
pub mod Watch
pub mod Ruled
pub mod Rules
pub mod Messages
pub mod Events
pub mod Drain
pub mod Threads
pub mod Race
pub mod Program
pub mod Bound
pub mod Conversation
pub mod Table
pub mod Samples
mod Tests
use qos_planner.Common.{◌≡◌, List, [], true, Option, some, Str}
use qos_planner.Queue.{WaitingItem, Heap, pop}
use qos_planner.Schedule.{empty}
use qos_planner.Rules.{RuleManager}
use qos_planner.Monitor.{JobMonitor, World, handle}
use qos_planner.Message.{Reply}
use qos_planner.Scheduler.Static.{Floats, StaticScheduler}
use qos_planner.Planner.{Planner}
use qos_planner.Server.{Outside, Parsed, serve_message}
use qos_planner.Server.Replies.{IsProperMessage}

module _ (floats : Floats) where
  -- The process as it is started, with its limits; no rules and no jobs are known.
  abbrev pub started : List (Str × floats.Float) → Planner floats
  started limits = record {
    monitor = record {
      thread_started = true;
      queue = [];
      schedule = empty;
      rules = record { active_rules = []; ids = []; ips = [] };
      calls = [];
    };
    osts_max_mbs_limits = limits;
  }

  pub data Step : Planner floats → Planner floats → Type 0 where
    message :
        {s s' : Planner floats} {sent : List (Option Reply)} (o : Outside) (m : Parsed)
        → IsProperMessage o m
        → serve_message floats o s m ≡ some (s', sent)
        → Step s s'
    event :
        {s : Planner floats} {x : WaitingItem} {q : Heap} {m' : JobMonitor} (w : World)
        → pop s.monitor.queue ≡ some (some x, q)
        → handle w (record s.monitor { queue = q }) x.jobid x.event_type ≡ some m'
        → Step s (record s { monitor = m' })

  pub data Reach (s : Planner floats) : Planner floats → Type 0 where
    here : Reach s s
    next : {t u : Planner floats} → Reach s t → Step t u → Reach s u
