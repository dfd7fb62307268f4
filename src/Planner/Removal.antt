-- ===== src/Planner/Removal.antt =====
-- `ServeJobRemove`.
use qos_planner.Common.{
  ◌≡◌, refl, ◌∙◌, List, [], ◌∷◌, Bool, true, none, some, ite, if_pos, if_neg, if◌then◌else◌, Str,
  Str-discrete, arith, Returns, returns, Returns-bind, Returns-map,
}
use qos_planner.Job.{job_of_id}
use qos_planner.Schedule.{Schedule}
use qos_planner.Schedule.Valid.{IsValid, view}
use qos_planner.Schedule.Remove.{Removed, remove_job_correct}
use qos_planner.Monitor.{JobMonitor}
use qos_planner.Monitor.Threads.{member}
use qos_planner.Monitor.Stop.{Removed-view}
use qos_planner.Monitor.Unregister.{Unregistered, unregister_job_correct}
use qos_planner.Message.{pos}
use qos_planner.Scheduler.Static.{Floats}
use qos_planner.Planner.{Planner, reply_of, remove_all, serve_job_remove}

-- One round: the id is unknown then, whether or not it was known.
pub forgotten :
    (m : JobMonitor) (id k : Str) (m' : JobMonitor × Bool) (r : Schedule × Bool)
    → Unregistered m id m'
    → Removed m'.0.schedule id r
    → view r.0 k ≡ ite (Str-discrete id k) none (view m.schedule k)
forgotten m id k m' r (_, _, valid, _, others, _, _) removed =
    (Removed-view m'.0.schedule id k r valid removed).1 ∙ elim (Str-discrete id k) [
      | yes hit ↦ rw (if_pos _ hit, if_pos _ hit)
      | no miss ↦ rw (if_neg _ miss, if_neg _ miss) (others k miss)
    ]

module _ (floats : Floats) where
  -- The ids are unknown, and the other jobs as they were.
  abbrev pub Forgot : Planner floats → List Str → Planner floats → Type 0
  Forgot s ids s' =
      IsValid s'.monitor.schedule
      × ((k : Str)
          → view s'.monitor.schedule k ≡ (if member k ids then none else view s.monitor.schedule k))

  remove_all-Forgot :
      (s : Planner floats) (ids : List Str)
      → IsValid s.monitor.schedule
      → Returns (Forgot s ids) (remove_all floats s ids)
  unfolding remove_all member
  remove_all-Forgot s [] v = returns (v, λ k. refl)
  remove_all-Forgot s (id ∷ ids) v =
      Returns-bind (unregister_job_correct s.monitor (job_of_id id) v) λ m u.
        Returns-bind (remove_job_correct m.0.schedule id u.2) λ r removed.
          let valid = (Removed-view m.0.schedule id id r u.2 removed).0 in
          Returns-map
            (remove_all-Forgot (record s { monitor = record m.0 { schedule = r.0 } }) ids valid)
            λ s' (valid', views).
              (valid', λ k. ground (arith, views k, forgotten s.monitor id k m r u removed))

  -- ServeJobRemove on a valid schedule always returns, with the code 0; then every id of the
  -- request is unknown to the schedule, whether or not it was known, and every other job is as it
  -- was.
  pub serve_job_remove-Forgot :
      (s : Planner floats) (ids : List Str)
      → IsValid s.monitor.schedule
      → Returns
          (λ r. Forgot s ids r.0 × (r.1 ≡ true) × (r.2 ≡ some (reply_of (pos 0) [])))
          (serve_job_remove floats s ids)
  unfolding serve_job_remove
  serve_job_remove-Forgot s ids v =
      Returns-bind (remove_all-Forgot s ids v) λ s' f. returns (f, refl, refl)
