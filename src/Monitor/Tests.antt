-- ===== src/Monitor/Tests.antt =====
-- Runs of the monitor, and of two of its threads.
use mathlib.Core.List.{mem-cons_self}
use qos_planner.Common.{
  ℕ, ◌+◌, ◌*◌, ◌<◌, ◌⊎◌, ◌≢◌, ◌≡◌, refl, [], ◌∷◌, true, false, none, ite, Str, str, Str-discrete,
  arith, Returns,
}
use qos_planner.Job.{jobstart, jobstop}
use qos_planner.Queue.Order.{IsMaxHeap}
use qos_planner.Queue.{Heap, pop}
use qos_planner.Schedule.Valid.{IsValid, view}
use qos_planner.Schedule.Samples.{one_job, one_job-IsValid, active_job, active_job-IsValid}
use qos_planner.Rules.Samples.{answers, all_accept, no_rules}
use qos_planner.Monitor.{
  JobMonitor, World, item, is_there_a_ready_job, start_job, handle, monitor_loop,
}
use qos_planner.Monitor.Threads.{InFlight, idle, entered, Step, Reach, member, in_flight_exclusive}
use qos_planner.Monitor.Ready.{is_there_a_ready_job-blocked}
use qos_planner.Monitor.Start.{StartOutcome, start_job_correct}
use qos_planner.Monitor.Stop.{Retracted, handle-jobstop}
use qos_planner.Monitor.Loop.{monitor_loop_ends}
use qos_planner.Monitor.Lifetime
use qos_planner.Monitor.Lifetime.Shutdown.{steps_left, tear_down_drains}
use qos_planner.Monitor.Lifetime.{
  Lifetime, launched, handling, ended, working, finished, next, here, begin, go_on, take, tear_down,
}

abbrev world : World
world = record { lustre = answers; result = all_accept; order = λ m. m }

-- The start of the job waits.
abbrev waiting : JobMonitor
waiting = record {
  thread_started = true;
  queue = item (str "a") 10 jobstart ∷ [];
  schedule = one_job;
  rules = no_rules;
  calls = [];
}

-- The job runs, and its stop waits.
abbrev running : JobMonitor
running = record waiting { queue = item (str "a") 20 jobstop ∷ []; schedule = active_job }

start_job_correct_example :
    Returns (StartOutcome world waiting (str "a")) (start_job world waiting (str "a"))
start_job_correct_example = start_job_correct world waiting (str "a") one_job-IsValid

handle-jobstop_example :
    Returns
      (λ m'.
        IsValid m'.schedule
        × (m'.queue ≡ running.queue)
        × ((k : Str) → view m'.schedule k ≡ ite (Str-discrete (str "a") k) none (view active_job k))
        × Retracted running (str "a") m'.rules)
      (handle world running (str "a") jobstop)
handle-jobstop_example = handle-jobstop world running (str "a") active_job-IsValid

-- The clock goes on by 8 ticks from test to test.
abbrev clock : ℕ → ℕ
clock i = 11 + 8 * i

monitor_loop_ends_example :
    Returns
      (λ m'. IsValid m'.schedule × ((i : ℕ) × (is_there_a_ready_job m'.queue (clock i) ≡ false)))
      (monitor_loop 3 world clock waiting)
monitor_loop_ends_example = monitor_loop_ends 3 world clock waiting one_job-IsValid (omega arith)

-- The stop at 5 is due at 50, but the start at 99 stands before it.
abbrev blocked : Heap
blocked = item (str "b") 99 jobstart ∷ item (str "a") 5 jobstop ∷ []

blocked-IsMaxHeap : IsMaxHeap blocked
unfolding qos_planner.Queue.Access.key
blocked-IsMaxHeap c p s = ground arith

is_there_a_ready_job-blocked_example : is_there_a_ready_job blocked 50 ≡ false
is_there_a_ready_job-blocked_example =
    is_there_a_ready_job-blocked blocked (item (str "b") 99 jobstart) 50 blocked-IsMaxHeap
      mem-cons_self (omega arith)

-- Thread 1 works on "a", thread 2 on "b".
abbrev two_threads : InFlight
two_threads = entered (entered idle 1 (str "a")) 2 (str "b")

two_threads-Reach : Reach idle two_threads
unfolding member Str-discrete
two_threads-Reach =
    Reach.next (Reach.next Reach.here (Step.enter idle 1 (str "a") refl refl))
      (Step.enter (entered idle 1 (str "a")) 2 (str "b") refl refl)

in_flight_exclusive_example : str "a" ≢ str "b"
in_flight_exclusive_example =
    in_flight_exclusive two_threads 1 2 (str "a") (str "b") two_threads-Reach (omega arith) refl
      refl

-- The thread has popped the start when TearDown is called.
abbrev torn_down : Lifetime
torn_down = record (launched waiting) {
  monitor = record waiting { queue = [] };
  worker = handling (item (str "a") 10 jobstart);
  caller = Lifetime.waiting;
  is_active = true;
  exit_flag = true;
}

torn_down-Reach : Lifetime.Reach (launched waiting) torn_down
unfolding is_there_a_ready_job pop
torn_down-Reach =
    next (next (next (next here (begin refl)) (go_on refl refl)) (take 11 refl refl refl))
      (tear_down refl refl)

tear_down_drains_example :
    ((t : Lifetime)
      → Lifetime.Step torn_down t
      → (steps_left t < steps_left torn_down) × (t.caller ≢ working))
    × (((torn_down.caller ≡ finished)
          × (torn_down.worker ≡ ended)
          × (torn_down.is_active ≡ false)
          × IsValid torn_down.monitor.schedule)
        ⊎ ((t : Lifetime) × Lifetime.Step torn_down t))
tear_down_drains_example =
    tear_down_drains world waiting torn_down one_job-IsValid torn_down-Reach (ground arith)
