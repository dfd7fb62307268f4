-- ===== src/System/Tests.antt =====
-- A run of the process: a reservation is made, and its start comes.
use mathlib.Core.List.{forall_mem-cons, not-mem-nil}
use native.Mathlib.Bridge.{le_prop}
use qos_planner.Common.{
  suc, Returns, arith, ◌+◌, ◌≢◌, ◌≡◌, refl, [], ◌∷◌, Mem, true, none, some, str, str_ltb,
  Str-discrete,
}
use qos_planner.Common.Map.{find, assign}
use qos_planner.Job.{jobstart, jobstop, JobState-discrete, scheduled, active}
use qos_planner.Queue.{push, up, pop}
use qos_planner.Schedule.{deref, update_job, get_of_job}
use qos_planner.Schedule.Valid.{view}
use qos_planner.Rules.Samples.{answers, all_accept}
use qos_planner.Rules.{
  is_some, set_rule, set_rules, set_rules_on, set_rules_async, set_calls, cleanup_calls,
  compute_oss_to_mbs, determine_ost_ips,
}
use qos_planner.Rules.Cache.{to_uuid, get_ip, update_cache, ids_of}
use qos_planner.Monitor.{
  JobMonitor, World, item, handle, monitor_loop, is_there_a_ready_job, start_job, start_scheduled,
  set_nrs_rules, push_stop,
}
use qos_planner.Monitor.Start.{setting}
use qos_planner.Message.{pos}
use qos_planner.Scheduler.Samples.{whole}
use qos_planner.Planner.{end_of}
use qos_planner.Server.{request_message}
use qos_planner.System.{started, message, event, Reach, here, next}
use qos_planner.System.Ruled.{is_active}
use qos_planner.System.Rules.{rules-active}
use qos_planner.System.Threads
use qos_planner.System.Threads.{Process, take, at_rest, GoesOn, threads_go_on}
use qos_planner.System.Race.{IsLeaked, removal_leaks_rules}
use qos_planner.System.Drain.{IsDue, IsDrained, monitor_loop_drains}
use qos_planner.System.Events.{active_job_stops}
use qos_planner.System.Samples.{outside, request, limits, tend, job_c, booked, reserved, reserve_c}

abbrev running : JobMonitor
running = record {
  thread_started = true;
  queue = item (str "c") tend jobstop ∷ [];
  schedule = booked active;
  rules = record {
    active_rules = (str "c", record { rule_name = str "_qospc"; ost_ips = str "ip1" ∷ [] }) ∷ [];
    ids = (str "o1", str "u1") ∷ (str "o2", str "u2") ∷ (str "o3", str "u3") ∷ [];
    ips = (str "u1", str "ip1") ∷ [];
  };
  calls = set_rule (str "ip1") (str "c") (str "_qospc") 60 ∷ [];
}

abbrev world : World
world = record { lustre = answers; result = all_accept; order = λ m. m }

front_c : pop reserved.monitor.queue ≡ some (some (item (str "c") 5 jobstart), [])
unfolding pop
front_c = refl

start_c : handle world (record reserved.monitor { queue = [] }) (str "c") jobstart ≡ some running
unfolding handle start_job start_scheduled set_nrs_rules set_rules determine_ost_ips to_uuid get_ip
    update_cache ids_of set_rules_on set_rules_async set_calls cleanup_calls compute_oss_to_mbs
    update_job push_stop get_of_job deref find assign Str-discrete str_ltb JobState-discrete push up
start_c = refl

end_is_proper : end_of 5 (pos 3600) ≢ none
unfolding end_of
end_is_proper e = cc

running-Reach : Reach whole (started whole limits) (record reserved { monitor = running })
running-Reach =
    next (next here (message outside (request_message request) end_is_proper reserve_c))
      (event world front_c start_c)

known_c : view running.schedule (str "c") ≡ some (job_c active)
unfolding view deref find Str-discrete
known_c = refl

active_job_stops_example : Mem (item (str "c") tend jobstop) running.queue
active_job_stops_example =
    active_job_stops whole limits (record reserved { monitor = running }) (str "c") (job_c active)
      running-Reach known_c refl

rules-active_example :
    is_some (find (str "c") running.rules.active_rules)
    ≡ is_active (view running.schedule (str "c"))
rules-active_example =
    rules-active whole limits (record reserved { monitor = running }) (str "c") running-Reach

reserved-Reach : Reach whole (started whole limits) reserved
reserved-Reach = next here (message outside (request_message request) end_is_proper reserve_c)

reserved-IsDue : IsDue tend reserved.monitor
unfolding view deref find Str-discrete
reserved-IsDue = record {
  events = (forall_mem-cons λ t. le_prop).1 (omega arith, λ y m. absurd (not-mem-nil m));
  ends = λ k j e. ground arith;
}

monitor_loop_drains_example :
    Returns IsDrained (monitor_loop 3 world (λ i. suc tend + i) reserved.monitor)
monitor_loop_drains_example =
    monitor_loop_drains whole limits reserved world (λ i. suc tend + i) 3 tend reserved-Reach
      reserved-IsDue (λ i. omega arith) (omega arith)

-- The monitor's thread has popped the start of the reservation.
abbrev popped : Process whole
popped = record {
  planner = record reserved { monitor = record reserved.monitor { queue = [] } };
  popped = some (item (str "c") 5 jobstart);
  removing = none;
}

popped-Reach : Threads.Reach whole (at_rest whole (started whole limits)) popped
unfolding is_there_a_ready_job
popped-Reach =
    Threads.next
      (Threads.next Threads.here
        (Threads.message outside (request_message request) refl end_is_proper reserve_c))
      (take 6 refl refl front_c)

threads_go_on_example : GoesOn whole popped
threads_go_on_example = threads_go_on whole limits popped popped-Reach

rules_of_c : (setting world popped.planner.monitor (str "c") (job_c scheduled)).1 ≡ true
unfolding set_rules determine_ost_ips to_uuid get_ip update_cache ids_of set_rules_on
    set_rules_async set_calls cleanup_calls compute_oss_to_mbs find assign Str-discrete str_ltb
rules_of_c = refl

scheduled_c : view (booked scheduled) (str "c") ≡ some (job_c scheduled)
unfolding view deref find Str-discrete
scheduled_c = refl

removal_leaks_rules_example :
    (t : Process whole) × Threads.Reach whole popped t × IsLeaked whole (str "c") t
removal_leaks_rules_example =
    removal_leaks_rules whole popped world (item (str "c") 5 jobstart) (job_c scheduled)
      threads_go_on_example.0 refl refl refl scheduled_c refl rules_of_c
