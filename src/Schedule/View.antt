-- ===== src/Schedule/View.antt =====
-- The getters and `GetAllJobs`, against the abstract schedule.
use mathlib.Core.Option
use qos_planner.Common.{
  ℕ, ◌≡◌, refl, ap, List, [], ◌∷◌, map, some, arith, ◌>>=◌, Str, Option-cases, inl, inr, Returns,
  returns, Returns-bind,
}
use qos_planner.Common.Map.{find}
use qos_planner.Job.{Job}
use qos_planner.Schedule.{Store, Schedule, deref, get_of_job, copy_jobs, get_all_jobs}
use qos_planner.Schedule.Store.{IsNamed}
use qos_planner.Schedule.Valid.{IsValid, view, view-known}

-- On a valid schedule a getter never follows a dangling pointer; it reads its part of the job with
-- the id, and fails exactly for unknown ids.
pub get_of_job-view {ℓ} :
    {A : Type ℓ} (part : Job → A) (s : Schedule) (k : Str)
    → IsValid s
    → get_of_job part s k ≡ some (Option.map part (view s k))
unfolding get_of_job
get_of_job-view part s k v = elim (Option-cases (find k s.jobs)) [
  | inl e ↦ unfold view in rw (e, get_of_job)
  | inr (p, e) ↦ let (j, known, at, _) = view-known s k p v e in rw (e, known, get_of_job) (rw at)
]

copy_jobs-find :
    (h : Store) (m : List (Str × ℕ))
    → IsNamed h m
    → Returns
        (λ l.
          (map (λ e. e.0) l ≡ map (λ e. e.0) m) × ((k : Str) → find k l ≡ (find k m >>= deref h)))
        (copy_jobs h m)
unfolding copy_jobs find
copy_jobs-find h [] n = returns (refl, λ k. refl)
copy_jobs-find h ((i, p) ∷ m) ((j, at, named), rest) = rw at (
    Returns-bind (copy_jobs-find h m rest)
      λ l (keys, same). returns (ap (◌∷◌ i) keys, λ k. ground (arith, same k)))

-- On a valid schedule GetAllJobs never follows a dangling pointer; it returns the ids in the order
-- of the map, each with a copy of its job.
pub get_all_jobs-view :
    (s : Schedule)
    → IsValid s
    → Returns
        (λ l. (map (λ e. e.0) l ≡ map (λ e. e.0) s.jobs) × ((k : Str) → find k l ≡ view s k))
        (get_all_jobs s)
unfolding get_all_jobs view
get_all_jobs-view s v = copy_jobs-find s.store s.jobs v.named
