-- ===== src/Scheduler/Session.antt =====
-- Calls on a scheduler of src/common/JobScheduler.h, one after the other, for both schedulers.
use qos_planner.Common.{
  ℕ, ◌≡◌, subst, List, [], ◌∷◌, Bool, Option, none, some, ◌⊎◌, inl, inr, ◌>>=◌, Str, Str-discrete,
  arith, Returns, returns, Returns-bind, Returns-map,
}
use qos_planner.Job.{Job, JobState, set_state}
use qos_planner.Schedule.Valid.{IsValid}
use qos_planner.Schedule.State.{View}
use qos_planner.Scheduler.Static.{Floats, StaticScheduler}
use qos_planner.Scheduler.Dynamic.{DynScheduler}
use qos_planner.Scheduler.Interface.{
  JobScheduler, Scheduled, Unscheduled, static_scheduler, dyn_scheduler,
}

-- A call on a scheduler.
pub data Call : Type 0 where
  schedule : (ℕ → ℕ) → Job → Call
  remove : Str → Call

-- The call adds no job, or one that it names, and takes none but one that it names.
abbrev pub Adds : Call → Str → Job → Type 0
Adds (schedule stack job) k j = (job.jobid ≡ k) × ((st : JobState) × (j ≡ set_state st job))
Adds (remove id) k j = ⊥

abbrev pub Takes : Call → Str → Type 0
Takes (schedule stack job) k = ⊥
Takes (remove id) k = id ≡ k

abbrev pub AnyAdds : List Call → Str → Job → Type 0
AnyAdds [] k j = ⊥
AnyAdds (c ∷ cs) k j = Adds c k j ⊎ AnyAdds cs k j

abbrev pub AnyTakes : List Call → Str → Type 0
AnyTakes [] k = ⊥
AnyTakes (c ∷ cs) k = Takes c k ⊎ AnyTakes cs k

-- Each job that is there at the end was there at the start or is one that a call schedules, up to its
-- state; each job that was there and whose id no call removes is still there.
abbrev pub Traced : (Str → Job → Type 0) → (Str → Type 0) → View → View → Type 0
Traced adds takes before after =
    ((k : Str) (j : Job) → after k ≡ some j → (before k ≡ some j) ⊎ adds k j)
    × ((k : Str) (j : Job) → before k ≡ some j → ¬ takes k → after k ≡ some j)

Scheduled-Traced :
    (stack : ℕ → ℕ) (job : Job) (before after : View) (done : Bool)
    → Scheduled job before after done
    → Traced (Adds (schedule stack job)) (Takes (schedule stack job)) before after
Scheduled-Traced stack job before after done (inl (_, same)) =
    (λ k j e. inl (ground (arith, same k)), λ k j e untouched. ground (arith, same k))
Scheduled-Traced stack job before after done (inr (_, free, st, views)) = (
  (λ k j e. elim (Str-discrete job.jobid k) [
    | yes hit ↦ inr (hit, (st, ground (arith, views k)))
    | no miss ↦ inl (ground (arith, views k))
  ]),
  λ k j e untouched. elim (Str-discrete job.jobid k) [
    | yes hit ↦
        let gone : before k ≡ none = subst (λ i. before i ≡ none) hit free in
        absurd (let no_job : ⊥ = cc in no_job)
    | no miss ↦ ground (arith, views k)
  ],
)

Unscheduled-Traced :
    (id : Str) (before after : View) (done : Bool)
    → Unscheduled id before after done
    → Traced (Adds (remove id)) (Takes (remove id)) before after
Unscheduled-Traced id before after done (inl (_, _, same)) =
    (λ k j e. inl (ground (arith, same k)), λ k j e untouched. ground (arith, same k))
Unscheduled-Traced id before after done (inr (_, _, views)) = (
  (λ k j e. inl (ground (arith, views k))),
  λ k j e untouched. elim (Str-discrete id k) [
    | yes hit ↦ absurd (untouched hit)
    | no miss ↦ ground (arith, views k)
  ],
)

module _ (scheduler : JobScheduler) where
  unfoldable pub run_call : Call → scheduler.Carrier → Option (scheduler.Carrier × Bool)
  run_call (schedule stack job) s = scheduler.schedule stack s job
  run_call (remove id) s = scheduler.remove s id

  -- The calls in their order.
  unfoldable pub run_calls : List Call → scheduler.Carrier → Option scheduler.Carrier
  unfolding run_call
  run_calls [] s = some s
  run_calls (c ∷ cs) s = run_call c s >>= λ (s', done). run_calls cs s'

  run_call-Traced :
      (c : Call) (s : scheduler.Carrier)
      → scheduler.IsProper s
      → Returns
          (λ r.
            scheduler.IsProper r.0
            × Traced (Adds c) (Takes c) (scheduler.jobs s) (scheduler.jobs r.0))
          (run_call c s)
  unfolding run_call
  run_call-Traced (schedule stack job) s p =
      Returns-map (scheduler.schedule-Scheduled stack s job p) λ (s', done) (p', o).
        (p', Scheduled-Traced stack job (scheduler.jobs s) (scheduler.jobs s') done o)
  run_call-Traced (remove id) s p =
      Returns-map (scheduler.remove-Unscheduled s id p) λ (s', done) (p', o).
        (p', Unscheduled-Traced id (scheduler.jobs s) (scheduler.jobs s') done o)

  -- Where a job is after the calls.
  abbrev pub CallsOutcome : List Call → scheduler.Carrier → scheduler.Carrier → Type 0
  CallsOutcome cs s s' =
      scheduler.IsProper s'
      × Traced (AnyAdds cs) (AnyTakes cs) (scheduler.jobs s) (scheduler.jobs s')

  pub run_calls-Traced :
      (cs : List Call) (s : scheduler.Carrier)
      → scheduler.IsProper s
      → Returns (CallsOutcome cs s) (run_calls cs s)
  unfolding run_calls
  run_calls-Traced [] s p = returns (p, (λ k j e. inl e, λ k j e untouched. e))
  run_calls-Traced (c ∷ cs) s p =
      Returns-bind (run_call-Traced c s p) λ (s', done) (p', (from, kept)).
        Returns-map (run_calls-Traced cs s' p') λ s'' (p'', (from', kept')). (
          p'',
          (
            (λ k j e. elim (from' k j e) [
              | inr later ↦ inr (inr later)
              | inl there ↦ elim (from k j there) [
                | inl before ↦ inl before
                | inr now ↦ inr (inl now)
              ]
            ]),
            λ k j e untouched. kept' k j (kept k j e λ t. untouched (inl t)) λ t. untouched (inr t),
          ),
        )

-- After any calls of ScheduleJob and RemoveJob on either scheduler, from a valid schedule, whatever
-- an uninitialised variable holds, the schedule is valid; each job in it was there before or is, up
-- to its state, one that a call schedules, under its id; and each job that was there and whose id
-- no call removes is there as it was.
pub schedulers_keep_jobs :
    (floats : Floats) (cs : List Call) (s : StaticScheduler floats) (d : DynScheduler)
    → IsValid s.monitor.schedule
    → IsValid d.monitor.schedule
    → Returns
        (CallsOutcome (static_scheduler floats) cs s)
        (run_calls (static_scheduler floats) cs s)
      × Returns (CallsOutcome dyn_scheduler cs d) (run_calls dyn_scheduler cs d)
schedulers_keep_jobs floats cs s d v w =
    (run_calls-Traced (static_scheduler floats) cs s v, run_calls-Traced dyn_scheduler cs d w)
