-- ===== src/Monitor/Lifetime/Shutdown.antt =====
-- TearDown of the monitor comes to its end (src/common/JobMonitor.cpp).
use qos_planner.Common.{
  ℕ, ◌+◌, ◌*◌, ◌<◌, ◌≡◌, ◌≢◌, ◌⊎◌, refl, ap, ◌∙◌, Bool, true, false, some, arith, inl, inr,
  Bool-cases, Returns-inv, Returns-at,
}
use qos_planner.Queue.Contents.{pop-perm}
use qos_planner.Schedule.Valid.{IsValid}
use qos_planner.Monitor.{JobMonitor, World, is_there_a_ready_job}
use qos_planner.Monitor.Loop.{cost, weight, handle-Lighter, ready-pop}
use qos_planner.Monitor.Lifetime.{
  Worker, starting, looping, polling, handling, pausing, leaving, ended, Caller, working, waiting,
  joining, finished, Lifetime, Step, begin, go_on, take, work, pause, resume, stop, leave,
  tear_down, tear_down_idle, wake, join, Reach, here, next, launched,
}

-- Between the first lock of the thread and its last one.
abbrev pub is_running : Worker → Bool
is_running starting = false
is_running ended = false
is_running _ = true

record IsConsistent (s : Lifetime) : Type 0 where
  valid : IsValid s.monitor.schedule
  active : s.is_active ≡ is_running s.worker
  leaves : s.worker ≡ leaving → s.exit_flag ≡ true
  told : s.caller ≢ working → s.exit_flag ≡ true
  joined : s.caller ≡ finished → s.worker ≡ ended

Step-IsConsistent : {s t : Lifetime} → Step s t → IsConsistent s → IsConsistent t
Step-IsConsistent (begin at) c = ground arith
Step-IsConsistent (go_on at off) c = ground arith
Step-IsConsistent (take now at ready e) c = ground arith
Step-IsConsistent {s} (work w {x} at e) c =
    let v = (Returns-at (handle-Lighter w s.monitor x.jobid x.event_type c.valid) e).0 in
    ground arith
Step-IsConsistent (pause now at quiet) c = ground arith
Step-IsConsistent (resume at) c = ground arith
Step-IsConsistent (stop at on) c = ground arith
Step-IsConsistent (leave at) c = ground arith
Step-IsConsistent (tear_down at on) c = ground arith
Step-IsConsistent (tear_down_idle at off) c = ground arith
Step-IsConsistent (wake at off) c = ground arith
Step-IsConsistent (join at off) c = ground arith

Reach-IsConsistent : {s t : Lifetime} → IsConsistent s → Reach s t → IsConsistent t
Reach-IsConsistent c here = c
Reach-IsConsistent c (next r st) = Step-IsConsistent st (Reach-IsConsistent c r)

-- How many steps are left at most, once the flag is set: two for each event that the queue stands for,
-- and a few that lead out of the loop.
abbrev pub worker_left : Worker → ℕ → ℕ
worker_left starting events = 3 + 2 * events
worker_left looping events = 2 + 2 * events
worker_left polling events = 5 + 2 * events
worker_left (handling x) events = 4 + 2 * (events + cost x.event_type)
worker_left pausing events = 3 + 2 * events
worker_left leaving events = 1 + 2 * events
worker_left ended events = 2 * events

abbrev pub caller_left : Caller → ℕ
caller_left working = 3
caller_left waiting = 2
caller_left joining = 1
caller_left finished = 0

abbrev pub steps_left : Lifetime → ℕ
steps_left s = worker_left s.worker (weight s.monitor.queue) + caller_left s.caller

Step-lt :
    {s t : Lifetime}
    → Step s t
    → IsConsistent s
    → s.caller ≢ working
    → (steps_left t < steps_left s) × (t.caller ≢ working)
Step-lt (begin at) c torn = ground arith
Step-lt (go_on at off) c torn = let on = c.told torn in absurd (let no : ⊥ = cc in no)
Step-lt {s} (take now {x} {q} at ready e) c torn =
    let (y, front, total, same) =
      ready-pop s.monitor.queue now (some x, q) ready (Returns-at (pop-perm s.monitor.queue) e) in
    ground (arith, total, front, c.told torn)
Step-lt {s} (work w {x} {m} at e) c torn =
    let (v, lighter) = Returns-at (handle-Lighter w s.monitor x.jobid x.event_type c.valid) e in
    ground arith
Step-lt (pause now at quiet) c torn = ground arith
Step-lt (resume at) c torn = ground arith
Step-lt (stop at on) c torn = ground arith
Step-lt (leave at) c torn = ground arith
Step-lt (tear_down at on) c torn = ground arith
Step-lt (tear_down_idle at off) c torn = ground arith
Step-lt (wake at off) c torn = ground arith
Step-lt (join at off) c torn = ground arith

-- A thread that has begun or not yet begun can always make a step until it has ended.
worker_goes_on :
    (w : World) (s : Lifetime) (k : Worker)
    → s.worker ≡ k
    → IsConsistent s
    → s.exit_flag ≡ true
    → (s.worker ≡ ended) ⊎ ((t : Lifetime) × Step s t)
worker_goes_on w s starting at c on = inr (_, begin at)
worker_goes_on w s looping at c on = inr (_, stop at on)
worker_goes_on w s polling at c on = elim (Bool-cases (is_there_a_ready_job s.monitor.queue 0)) [
  | inr quiet ↦ inr (_, pause 0 at quiet)
  | inl ready ↦
      let (r, e, o) = Returns-inv (pop-perm s.monitor.queue) in
      let (x, front, _, _) = ready-pop s.monitor.queue 0 r ready o in
      inr (_, take 0 {x = x} {q = r.1} at ready (e ∙ ap (λ front. some (front, r.1)) front))
]
worker_goes_on w s (handling x) at c on =
    let (m, e, _) = Returns-inv (handle-Lighter w s.monitor x.jobid x.event_type c.valid) in
    inr (_, work w at e)
worker_goes_on w s pausing at c on = inr (_, resume at)
worker_goes_on w s leaving at c on = inr (_, leave at)
worker_goes_on w s ended at c on = inl at

-- Once the thread has ended, TearDown can make a step until it has returned.
caller_goes_on :
    (s : Lifetime) (c : Caller)
    → s.caller ≡ c
    → IsConsistent s
    → s.caller ≢ working
    → s.worker ≡ ended
    → (s.caller ≡ finished) ⊎ ((t : Lifetime) × Step s t)
caller_goes_on s working at c torn over = absurd (torn at)
caller_goes_on s waiting at c torn over = inr (_, wake at (ground (arith, c.active)))
caller_goes_on s joining at c torn over = inr (_, join at over)
caller_goes_on s finished at c torn over = inl at

launched-IsConsistent : (m : JobMonitor) → IsValid m.schedule → IsConsistent (launched m)
launched-IsConsistent m v = record {
  valid = v;
  active = refl;
  leaves = λ e. ground arith;
  told = λ torn. absurd (torn refl);
  joined = λ e. ground arith;
}

-- For a monitor on a valid schedule with its thread started, however the steps of the thread and
-- those of the caller of TearDown interleave, and whatever the clock says: once TearDown has been
-- called, each step lowers the number of steps that are left (at most two for each event that the
-- queue stands for, and a few more), and until TearDown has returned a step is possible, without
-- undefined behaviour; when it has returned, the thread has ended, does not count as active, and
-- the schedule is valid.
pub tear_down_drains :
    (w : World) (m : JobMonitor) (s : Lifetime)
    → IsValid m.schedule
    → Reach (launched m) s
    → s.caller ≢ working
    → ((t : Lifetime) → Step s t → (steps_left t < steps_left s) × (t.caller ≢ working))
      × (((s.caller ≡ finished)
            × (s.worker ≡ ended)
            × (s.is_active ≡ false)
            × IsValid s.monitor.schedule)
          ⊎ ((t : Lifetime) × Step s t))
tear_down_drains w m s v r torn =
    let ok = Reach-IsConsistent (launched-IsConsistent m v) r in
    (
      λ t st. Step-lt st ok torn,
      (elim (worker_goes_on w s s.worker refl ok (ok.told torn)) [
        | inr go ↦ inr go
        | inl over ↦ elim (caller_goes_on s s.caller refl ok torn over) [
          | inr go ↦ inr go
          | inl fin ↦ inl (fin, over, ground (arith, ok.active), ok.valid)
        ]
      ]),
    )
