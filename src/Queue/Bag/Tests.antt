-- ===== src/Queue/Bag/Tests.antt =====
-- A session of the queue, on its items without their order.
use qos_planner.Common.{[], ◌∷◌, str, Returns}
use qos_planner.Job.{jobstart, jobstop}
use qos_planner.Queue.{WaitingItem}
use qos_planner.Queue.Bag.{
  QueueCall, push_call, pop_call, peek_call, remove_call, Runs, contents, run_calls, run_calls-Runs,
}
use qos_planner.Common.{List}

abbrev first : WaitingItem
first = record { jobid = str "a"; time_of_event = 1; event_type = jobstart }

abbrev second : WaitingItem
second = record { jobid = str "b"; time_of_event = 5; event_type = jobstop }

abbrev session : List QueueCall
session =
    push_call first
    ∷ push_call second
    ∷ peek_call
    ∷ pop_call
    ∷ remove_call (str "a")
    ∷ remove_call (str "a")
    ∷ pop_call
    ∷ []

run_calls-Runs_example :
    Returns (λ (q', rs). Runs (contents []) session rs (contents q')) (run_calls session [])
run_calls-Runs_example = run_calls-Runs session []
