-- ===== src/Monitor/Lifetime.antt =====
-- The life of the monitor's thread (src/common/JobMonitor.cpp, Monitor) and the caller of `TearDown`. A
-- step is a critical section of `job_priority_queue_mutex_`, the handling of an item between two of
-- them, a read of the exit flag, or the end of a wait, at its time or before.
pub mod Shutdown
use qos_planner.Common.{
  ℕ, ◌+◌, ◌*◌, ◌<◌, ◌≡◌, ◌≢◌, ◌⊎◌, refl, ap, ◌∙◌, Bool, true, false, some, arith, inl, inr,
  Bool-cases, Returns-inv, Returns-at,
}
use qos_planner.Queue.{WaitingItem, Heap, pop}
use qos_planner.Queue.Contents.{pop-perm}
use qos_planner.Schedule.Valid.{IsValid}
use qos_planner.Monitor.{JobMonitor, World, is_there_a_ready_job, handle}
use qos_planner.Monitor.Loop.{cost, weight, handle-Lighter, ready-pop}

-- Where the thread stands: before its first lock, at the test of the exit flag, at the test of the
-- inner loop, with an item that it has popped, in the timed wait, behind the loop, and at its end.
pub data Worker : Type 0 where
  starting looping polling : Worker
  handling : WaitingItem → Worker
  pausing leaving ended : Worker

-- Where the other thread stands: before TearDown, in the wait for the flag, at the join, and behind it.
pub data Caller : Type 0 where
  working waiting joining finished : Caller

pub record Lifetime : Type 0 where
  pub monitor : JobMonitor
  pub worker : Worker
  pub caller : Caller
  pub is_active : Bool
  pub exit_flag : Bool

pub data Step (s : Lifetime) : Lifetime → Type 0 where
  begin : s.worker ≡ starting → Step s (record s { is_active = true; worker = looping })
  go_on : s.worker ≡ looping → s.exit_flag ≡ false → Step s (record s { worker = polling })
  take :
      (now : ℕ) {x : WaitingItem} {q : Heap}
      → s.worker ≡ polling
      → is_there_a_ready_job s.monitor.queue now ≡ true
      → pop s.monitor.queue ≡ some (some x, q)
      → Step s (record s { monitor = record s.monitor { queue = q }; worker = handling x })
  work :
      (w : World) {x : WaitingItem} {m : JobMonitor}
      → s.worker ≡ handling x
      → handle w s.monitor x.jobid x.event_type ≡ some m
      → Step s (record s { monitor = m; worker = polling })
  pause :
      (now : ℕ)
      → s.worker ≡ polling
      → is_there_a_ready_job s.monitor.queue now ≡ false
      → Step s (record s { worker = pausing })
  resume : s.worker ≡ pausing → Step s (record s { worker = looping })
  stop : s.worker ≡ looping → s.exit_flag ≡ true → Step s (record s { worker = leaving })
  leave : s.worker ≡ leaving → Step s (record s { is_active = false; worker = ended })
  tear_down :
      s.caller ≡ working
      → s.is_active ≡ true
      → Step s (record s { exit_flag = true; caller = waiting })
  tear_down_idle :
      s.caller ≡ working
      → s.is_active ≡ false
      → Step s (record s { exit_flag = true; caller = joining })
  wake : s.caller ≡ waiting → s.is_active ≡ false → Step s (record s { caller = joining })
  join : s.caller ≡ joining → s.worker ≡ ended → Step s (record s { caller = finished })

pub data Reach (s : Lifetime) : Lifetime → Type 0 where
  here : Reach s s
  next : {t u : Lifetime} → Reach s t → Step t u → Reach s u

-- `Init` has started the thread.
abbrev pub launched : JobMonitor → Lifetime
launched m = record {
  monitor = m;
  worker = starting;
  caller = working;
  is_active = false;
  exit_flag = false;
}
