-- ===== src/Planner/Lifecycle.antt =====
-- The constructor, `Init` and `TearDown` of src/common/Planner.cpp. Lustre and the schedule have an
-- `Init` and a `TearDown` that always succeed and do nothing (src/common/Lustre.cpp,
-- src/common/MemoryScheduleState.cpp), so the branches for their failure are left out.
use qos_planner.Common.{
  List, [], ◌∷◌, ◌++◌, Bool, true, false, Option, none, some, not, if◌then◌else◌, ◌>>=◌,
}
use qos_planner.Schedule.{empty}
use qos_planner.Monitor.{JobMonitor}
use qos_planner.Monitor
use qos_planner.Scheduler.Static.{Floats}
use qos_planner.Scheduler.Limits.{LimitElement, Reading, threw, failed, succeeded}
use qos_planner.Scheduler.Limits
use qos_planner.Planner.{Planner}

-- A call on a part of the planner.
pub data PartCall : Type 0 where
  init_lustre init_schedule init_monitor init_scheduler tear_down_monitor tear_down_schedule :
      PartCall

-- A monitor as it is constructed, with an empty schedule and a rule manager that knows nothing.
abbrev pub new_monitor : JobMonitor
new_monitor = record {
  thread_started = false;
  queue = [];
  schedule = empty;
  rules = record { active_rules = []; ids = []; ips = [] };
  calls = [];
}

-- The calls of an `Init` that succeeds.
abbrev pub all_inits : List PartCall
all_inits = init_lustre ∷ init_schedule ∷ init_monitor ∷ init_scheduler ∷ []

module _ (floats : Floats) where
  -- `Planner::Planner`
  abbrev pub new_planner : Planner floats
  new_planner = record { monitor = new_monitor; osts_max_mbs_limits = [] }

  -- `Init`, with what the scheduler finds in its file: an exception, false, or true with the planner,
  -- and the calls on the parts.
  unfoldable pub init :
      Planner floats
      → Option (Option (List (LimitElement floats)))
      → Option (Reading (Planner floats) × List PartCall)
  unfolding Monitor.init Limits.init
  init p file = Monitor.init p.monitor >>= λ (m, monitored).
      let result : Reading (Planner floats) × List PartCall =
        elim (Limits.init floats (record p { monitor = m }) file) [
          | none ↦ (threw, all_inits)
          | some (p', read) ↦
              if not read
              then (failed, all_inits ++ tear_down_monitor ∷ tear_down_schedule ∷ [])
              else (succeeded p', all_inits)
        ] in
      if not monitored
      then some (failed, init_lustre ∷ init_schedule ∷ init_monitor ∷ tear_down_schedule ∷ [])
      else some result

-- `TearDown`; both parts always succeed.
unfoldable pub tear_down : Bool × List PartCall
tear_down = (true, tear_down_monitor ∷ tear_down_schedule ∷ [])
