-- ===== src/Schedule/Session.antt =====
-- Calls on a schedule, one after the other, against the abstract map of src/common/ScheduleState.h.
use mathlib.Core.Option
use qos_planner.Common.{
  ◌≡◌, refl, ap, ◌∙◌, List, [], ◌∷◌, Bool, Option, none, some, ◌>>=◌, Str, arith, Returns, returns,
  Returns-bind, Returns-map,
}
use qos_planner.Common.Map.{find}
use qos_planner.Job.{Job}
use qos_planner.Schedule.{empty}
use qos_planner.Schedule.State.{
  Operation, add, remove, update, clear, View, view_step, SameView, ScheduleState,
  memory_schedule_state,
}

-- The results of the calls, and the map after them.
abbrev pub view_all : List Operation → View → View × List Bool
view_all [] v = (v, [])
view_all (o ∷ os) v = let (w, b) = view_step o v in let (u, bs) = view_all os w in (u, b ∷ bs)

view_step-SameView :
    (o : Operation) (v w : View)
    → SameView v w
    → ((view_step o v).1 ≡ (view_step o w).1) × SameView (view_step o v).0 (view_step o w).0
view_step-SameView (add job) v w same =
    (ground (arith, same job.jobid), λ k. ground (arith, same job.jobid, same k))
view_step-SameView (remove id) v w same =
    (ground (arith, same id), λ k. ground (arith, same id, same k))
view_step-SameView (update id st) v w same =
    (ground (arith, same id), λ k. ground (arith, same id, same k))
view_step-SameView clear v w same = (refl, λ k. refl)

view_all-SameView :
    (os : List Operation) (v w : View)
    → SameView v w
    → ((view_all os v).1 ≡ (view_all os w).1) × SameView (view_all os v).0 (view_all os w).0
view_all-SameView [] v w same = (refl, same)
view_all-SameView (o ∷ os) v w same =
    let (first, others) = view_step-SameView o v w same in
    let (later, end) = view_all-SameView os (view_step o v).0 (view_step o w).0 others in
    (rw (first, later) refl, end)

module _ (state : ScheduleState) where
  -- The calls in their order, with their results.
  unfoldable pub run_all : List Operation → state.Carrier → Option (state.Carrier × List Bool)
  run_all [] s = some (s, [])
  run_all (o ∷ os) s = do (s', b) ← state.run o s; (s'', bs) ← run_all os s'; some (s'', b ∷ bs)

  -- Whatever fills the interface does to the map of jobs what the calls say.
  run_all-view_all :
      (os : List Operation) (s : state.Carrier)
      → state.IsProper s
      → Returns
          (λ r.
            state.IsProper r.0
            × (r.1 ≡ (view_all os (state.jobs s)).1)
            × SameView (state.jobs r.0) (view_all os (state.jobs s)).0)
          (run_all os s)
  unfolding run_all
  run_all-view_all [] s p = returns (p, refl, λ k. refl)
  run_all-view_all (o ∷ os) s p =
      Returns-bind (state.run-view_step o s p) λ (s', b) (p', first, same).
        Returns-bind (run_all-view_all os s' p') λ (s'', bs) (p'', later, same').
          let (results, end) =
            view_all-SameView os (state.jobs s') (view_step o (state.jobs s)).0 same in
          returns (p'', rw (first, later ∙ results) refl, λ k. same' k ∙ end k)

  -- What can be read after the calls.
  abbrev pub Observed : View → state.Carrier → Type 1
  Observed v s =
      ((A : Type 0) (part : Job → A) (k : Str) → state.read part s k ≡ some (Option.map part (v k)))
      × Returns (λ l. SameView (λ k. find k l) v) (state.copy s)

  session-Observed :
      (os : List Operation)
      → Returns
          (λ r. (r.1 ≡ (view_all os (λ k. none)).1) × Observed (view_all os (λ k. none)).0 r.0)
          (run_all os state.start)
  session-Observed os =
      let (results, end) =
        view_all-SameView os (state.jobs state.start) (λ k. none) state.jobs-start in
      Returns-map (run_all-view_all os state.start state.start-IsProper) λ (s, bs) (p, given, same).
        (
          given ∙ results,
          (
            λ A part k.
                state.read-jobs part s k p ∙ ap (λ j. some (Option.map part j)) (same k ∙ end k),
            Returns-map (state.copy-jobs s p) λ l copied. λ k. copied k ∙ same k ∙ end k,
          ),
        )

-- After any calls of AddJob (of a job under its own id, for its own OSTs), RemoveJob, UpdateJob and
-- Reset on an empty schedule, none of which follows a dangling pointer, the results of the calls,
-- what the getters read for any id, and the copies of GetAllJobs are those of a map from ids to
-- jobs to which the calls add a job whose id is free, take one out, set the state of one, or which
-- they empty.
pub run_all-Observed :
    (os : List Operation)
    → let (jobs, results) = view_all os (λ k. none) in
      Returns
        (λ r. (r.1 ≡ results) × Observed memory_schedule_state jobs r.0)
        (run_all memory_schedule_state os empty)
run_all-Observed os = session-Observed memory_schedule_state os
