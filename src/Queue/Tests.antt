-- ===== src/Queue/Tests.antt =====
-- Runs of the queue.
use qos_planner.Common.{◌≡◌, refl, [], ◌∷◌, Mem, Perm, true, some, str, Str-discrete, Returns, ◌≤◌}
use qos_planner.Job.{jobstart, jobstop}
use qos_planner.Queue.{WaitingItem, time_at, swap, up, down, push, pop, remove_loop, remove, peek}
use qos_planner.Queue.Order.{push_all, push_all-peek_latest}

abbrev soon : WaitingItem
soon = record { jobid = str "soon"; time_of_event = 1; event_type = jobstop }

abbrev tomorrow : WaitingItem
tomorrow = record { jobid = str "tomorrow"; time_of_event = 9; event_type = jobstart }

abbrev next_year : WaitingItem
next_year = record { jobid = str "next_year"; time_of_event = 99; event_type = jobstart }

-- The item that is due last comes first.
push_order : push_all (next_year ∷ tomorrow ∷ soon ∷ []) ≡ some (next_year ∷ soon ∷ tomorrow ∷ [])
unfolding push_all push up swap time_at
push_order = refl

pop_order : pop (next_year ∷ soon ∷ tomorrow ∷ []) ≡ some (some next_year, tomorrow ∷ soon ∷ [])
unfolding pop down swap time_at
pop_order = refl

remove_middle :
    remove (next_year ∷ soon ∷ tomorrow ∷ []) (str "soon") ≡ some (true, next_year ∷ tomorrow ∷ [])
unfolding remove remove_loop down swap time_at Str-discrete
remove_middle = refl

push_all-peek_latest_example :
    Returns
      (λ q.
        Perm q (soon ∷ tomorrow ∷ [])
        × ((top x : WaitingItem)
            → peek q ≡ some top
            → Mem x (soon ∷ tomorrow ∷ [])
            → x.time_of_event ≤ top.time_of_event))
      (push_all (soon ∷ tomorrow ∷ []))
push_all-peek_latest_example = push_all-peek_latest (soon ∷ tomorrow ∷ [])
