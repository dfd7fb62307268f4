-- ===== src/Scheduler/Samples.antt =====
-- Schedulers that the tests start from, with numbers in place of the `float`s.
use qos_planner.Common.{ℕ, [], ◌∷◌, true, str, leb}
use qos_planner.Schedule.Samples.{one_job}
use qos_planner.Rules.Samples.{no_rules}
use qos_planner.Monitor.{JobMonitor}
use qos_planner.Scheduler.Static.{Floats, StaticScheduler}

abbrev pub whole : Floats
whole = record { Float = ℕ; of_uint32 = λ n. n; float_leb = leb }

abbrev pub monitor : JobMonitor
monitor = record {
  thread_started = true;
  queue = [];
  schedule = one_job;
  rules = no_rules;
  calls = [];
}

-- The OST "o1" may be loaded with 100 MB/s, of which the job there takes 60.
abbrev pub scheduler : StaticScheduler whole
scheduler = record { monitor = monitor; osts_max_mbs_limits = (str "o1", 100) ∷ [] }
