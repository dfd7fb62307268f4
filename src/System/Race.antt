-- ===== src/System/Race.antt =====
-- A removal that comes between the pop of a start and its handling.
use qos_planner.Common.{
  ◌≡◌, ◌≢◌, refl, sym, ap, ◌∙◌, Bool, true, false, none, some, some_eq, ◌>>=◌, if_pos, if_neg, Str,
  arith, inl, inr, Returns, returns, Returns-bind, Returns-map, Returns-inv,
}
use qos_planner.Job.{Job, job_of_id, jobstart, jobstop, scheduled, active}
use qos_planner.Queue.{WaitingItem}
use qos_planner.Schedule.{remove_job}
use qos_planner.Schedule.Valid.{IsValid, view}
use qos_planner.Schedule.Remove.{remove_job_correct}
use qos_planner.Monitor.{JobMonitor, World, handle}
use qos_planner.Monitor.Start.{StartOutcome, setting, start_job_correct}
use qos_planner.Monitor.Stop.{StopOutcome, Removed-view, stop_job_correct}
use qos_planner.Monitor.Unregister.{Unregistered, unregister_job_correct}
use qos_planner.Scheduler.Static.{Floats}
use qos_planner.System.Ruled.{has_rules, set_rules-has_rules}
use qos_planner.System.Threads.{Process, work, unregister, forget, Reach, here, next}

-- UnregisterJob leaves a scheduled job, and all rules, as they are.
Unregistered-scheduled :
    (m : JobMonitor) (id : Str) (j : Job) (r : JobMonitor × Bool)
    → view m.schedule id ≡ some j
    → j.state ≡ scheduled
    → Unregistered m id r
    → (view r.0.schedule id ≡ some j) × (r.0.rules ≡ m.rules)
Unregistered-scheduled m id j r known ready (_, _, _, own, _, _, rules) =
    let idle : j.state ≢ active = ground arith in
    (own j known ∙ rw (if_neg _ idle), rules j known ∙ rw (if_neg _ idle))

-- A start of a scheduled job, for which the rules can be set, leaves rules for it.
start-has_rules :
    (w : World) (m : JobMonitor) (id : Str) (j : Job)
    → IsValid m.schedule
    → view m.schedule id ≡ some j
    → j.state ≡ scheduled
    → (setting w m id j).1 ≡ true
    → Returns (λ m'. IsValid m'.schedule × (has_rules m'.rules id ≡ true)) (handle w m id jobstart)
unfolding handle
start-has_rules w m id j v known ready set =
    Returns-bind (start_job_correct w m id v) λ r o. returns (by_outcome r o)
  where
    by_outcome :
        (r : JobMonitor × Bool)
        → StartOutcome w m id r
        → IsValid r.0.schedule × (has_rules r.0.rules id ≡ true)
    by_outcome r (inl (_, other)) = absurd (other j known ready)
    by_outcome r (inr (i, at, _, inl (refused, _))) =
        let same : j ≡ i = some_eq (sym known ∙ at) in
        let clash : true ≡ false = sym set ∙ ap (λ y. (setting w m id y).1) same ∙ refused in
        absurd (let no_refusal : ⊥ = cc in no_refusal)
    by_outcome r (inr (i, at, _, inr (ok, _, s))) = (
      s.valid,
      rw s.rules (
          set_rules-has_rules w.lustre w.result w.order m.rules i.osts id id i.min_read_throughput
          ∙ rw (ok, if_pos _ refl)),
    )

-- A stop of an unknown job leaves all rules.
stop_unknown-rules :
    (w : World) (m : JobMonitor) (id : Str)
    → IsValid m.schedule
    → view m.schedule id ≡ none
    → Returns (λ m'. m'.rules ≡ m.rules) (handle w m id jobstop)
unfolding handle
stop_unknown-rules w m id v unknown = Returns-bind (stop_job_correct m id v) λ r o. by_outcome r o
  where
    by_outcome :
        (r : JobMonitor × Bool)
        → StopOutcome m id r
        → Returns
            (λ (m' : JobMonitor). m'.rules ≡ m.rules)
            (remove_job r.0.schedule id >>= λ (s, removed). some (record r.0 { schedule = s }))
    by_outcome r (inl (same, _)) =
        rw same (Returns-bind (remove_job_correct m.schedule id v) λ t _. returns refl)
    by_outcome r (inr (j, known, _, _, _)) = absurd (let no_job : ⊥ = cc in no_job)

module _ (floats : Floats) where
  -- A job that is gone, with rules that are still set, and no thread at work.
  pub record IsLeaked (id : Str) (s : Process floats) : Type 0 where
    pub idle : (s.popped ≡ none) × (s.removing ≡ none)
    pub gone : view s.planner.monitor.schedule id ≡ none
    pub set : has_rules s.planner.monitor.rules id ≡ true
    -- and a stop does not take them back
    pub stays :
        (w : World)
        → Returns (λ m. has_rules m.rules id ≡ true) (handle w s.planner.monitor id jobstop)

  -- On a valid schedule, between the pop of the start of a scheduled job and its handling, with no
  -- removal under way, and with rules that can be set: if a removal of the job comes in, the
  -- threads reach a state in which neither of them is at work, the job is unknown to the schedule,
  -- and the rule manager still keeps rules for it, which a stop of the job does not take back.
  pub removal_leaks_rules :
      (s : Process floats) (w : World) (x : WaitingItem) (j : Job)
      → IsValid s.planner.monitor.schedule
      → s.popped ≡ some x
      → x.event_type ≡ jobstart
      → s.removing ≡ none
      → view s.planner.monitor.schedule x.jobid ≡ some j
      → j.state ≡ scheduled
      → (setting w s.planner.monitor x.jobid j).1 ≡ true
      → (t : Process floats) × Reach floats s t × IsLeaked x.jobid t
  removal_leaks_rules s w x j v popped start free known ready set =
      let id = x.jobid in
      let ((m1, b1), e1, u) =
        Returns-inv (unregister_job_correct s.planner.monitor (job_of_id id) v) in
      let (known1, rules1) = Unregistered-scheduled s.planner.monitor id j (m1, b1) known ready u in
      let set1 : (setting w m1 id j).1 ≡ true = rw rules1 set in
      let (m2, e2, (v2, has2)) = Returns-inv (start-has_rules w m1 id j u.2 known1 ready set1) in
      let ((t, b3), e3, removed) = Returns-inv (remove_job_correct m2.schedule id v2) in
      let (v3, gone) = Removed-view m2.schedule id id (t, b3) v2 removed in
      let unknown : view t id ≡ none = gone ∙ rw (if_pos _ refl) in
      (
        _,
        next (next (next here (unregister id free e1)) (work w popped (rw start e2)))
            (forget refl e3),
        record {
          idle = (refl, refl);
          gone = unknown;
          set = has2;
          stays = λ w'.
              Returns-map (stop_unknown-rules w' (record m2 { schedule = t }) id v3 unknown)
                λ m same. rw same has2;
        },
      )
