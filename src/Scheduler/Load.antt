-- ===== src/Scheduler/Load.antt =====
-- `GetMaxLoadInTimeInterval`, from the line on where its two versions agree
-- (src/common/JobSchedulerStaticWorkloads.cpp and JobSchedulerDynWorkloads.cpp).
use qos_planner.Common.{
  ℕ, ◌+◌, ◌%◌, ◌≡◌, refl, subst, List, [], ◌∷◌, Bool, Option, none, some, ◌>>=◌, ◌||◌, ltb,
  if◌then◌else◌, Str, Option-cases, inl, inr,
}
use qos_planner.Common.Map.{find}
use qos_planner.Job.{Job}
use qos_planner.Schedule.{Store, Schedule, deref, get_ost_state, ost_list}
use qos_planner.Schedule.Store.{IsOrdered}
use qos_planner.Schedule.Valid.{IsValid}
use qos_planner.Rules.{uint32_range}

-- "is the job outside of the time interval?"
abbrev pub is_outside : Job → ℕ → ℕ → Bool
is_outside j start end = ltb end j.tstart || ltb j.tend start

-- The loop over the jobs of an OST, from the sum so far.
unfoldable pub sum_load : Store → ℕ → ℕ → ℕ → List ℕ → Option ℕ
unfolding deref
sum_load h start end sum [] = some sum
sum_load h start end sum (p ∷ l) = do
  j ← deref h p
  let next = if is_outside j start end then sum else (sum + j.min_read_throughput) % uint32_range
  sum_load h start end next l

-- `GetMaxLoadInTimeInterval`: the value that its output parameter has afterwards, from the value
-- `out` before. The sum goes into a local variable, and no further.
unfoldable pub get_max_load : Schedule → Str → ℕ → ℕ → ℕ → Option ℕ
unfolding sum_load get_ost_state
get_max_load s ost start end out = elim (get_ost_state s ost) [
  | none ↦ some 0
  | some l ↦ sum_load s.store start end 0 l >>= λ max_load. some out
]

pub sum_load-ends :
    (h : Store) (start end bound sum : ℕ) (l : List ℕ)
    → IsOrdered h bound l
    → (load : ℕ) × (sum_load h start end sum l ≡ some load)
unfolding sum_load
sum_load-ends h start end bound sum [] o = (sum, refl)
sum_load-ends h start end bound sum (p ∷ l) (j, at, _, rest) =
    let next =
      if is_outside j start end then sum else (sum + j.min_read_throughput) % uint32_range in
    let (load, e) = sum_load-ends h start end j.tstart next l rest in (load, rw at e)

-- For an OST with a list of jobs, however loaded, the caller's variable keeps the value that it had;
-- for any other it is set to 0.
pub get_max_load-out :
    (s : Schedule) (ost : Str) (start end out : ℕ)
    → IsValid s
    → get_max_load s ost start end out
      ≡ some (elim (get_ost_state s ost) [ none ↦ 0 | some l ↦ out ])
unfolding get_max_load get_ost_state
get_max_load-out s ost start end out v = elim (Option-cases (find ost s.schedule)) [
  | inl e ↦ rw (e, get_max_load)
  | inr (l, e) ↦
      let list : ost_list ost s.schedule ≡ l = rw (e, ost_list) in
      let ordered = subst (IsOrdered s.store 0) list (v.ordered ost) in
      let (load, sum) = sum_load-ends s.store start end 0 0 l ordered in
      rw (e, get_max_load) (rw sum)
]
