-- ===== src/Monitor/Threads.antt =====
-- `in_flight_jobs_` and the waits on it: `Handle`, in the monitor's thread, and `UnregisterJob`, in
-- any other (`BlockJob`, `UnblockJob`), enter when the job is not in flight and take it out again at
-- their end. A step is one critical section of `in_flight_jobs_mutex_`; a thread that waits makes
-- no step.
use qos_planner.Common.{
  ℕ, ◌≡◌, ◌≢◌, sym, ap, ◌∙◌, List, [], ◌∷◌, Bool, true, false, Option, none, some, ite, ◌==◌,
  if◌then◌else◌, Str, Str-discrete, arith,
}

unfoldable pub member : Str → List Str → Bool
member x [] = false
member x (y ∷ ys) = ite (Str-discrete y x) true (member x ys)

-- `std::set::erase`
unfoldable pub erase_all : Str → List Str → List Str
erase_all x [] = []
erase_all x (y ∷ ys) = ite (Str-discrete y x) (erase_all x ys) (y ∷ erase_all x ys)

-- The set, and the job that each thread is working on.
pub record InFlight : Type 0 where
  pub in_flight_jobs : List Str
  pub works_on : ℕ → Option Str

abbrev pub update : (ℕ → Option Str) → ℕ → Option Str → ℕ → Option Str
update f t v u = if t == u then v else f u

-- The wait loop is left when the job is not in flight, and the job is inserted.
abbrev pub entered : InFlight → ℕ → Str → InFlight
entered s t id = record {
  in_flight_jobs = id ∷ s.in_flight_jobs;
  works_on = update s.works_on t (some id);
}

-- The job is erased, and all that wait are notified.
abbrev pub left : InFlight → ℕ → Str → InFlight
left s t id = record {
  in_flight_jobs = erase_all id s.in_flight_jobs;
  works_on = update s.works_on t none;
}

pub data Step : InFlight → InFlight → Type 0 where
  enter :
      (s : InFlight) (t : ℕ) (id : Str)
      → s.works_on t ≡ none
      → member id s.in_flight_jobs ≡ false
      → Step s (entered s t id)
  leave : (s : InFlight) (t : ℕ) (id : Str) → s.works_on t ≡ some id → Step s (left s t id)

pub data Reach (s : InFlight) : InFlight → Type 0 where
  here : Reach s s
  next : {t u : InFlight} → Reach s t → Step t u → Reach s u

abbrev pub idle : InFlight
idle = record { in_flight_jobs = []; works_on = λ t. none }

pub record IsExclusive (s : InFlight) : Type 0 where
  pub listed : (t : ℕ) (id : Str) → s.works_on t ≡ some id → member id s.in_flight_jobs ≡ true
  pub alone : (t u : ℕ) (id : Str) → s.works_on t ≡ some id → s.works_on u ≡ some id → t ≡ u

member-erase_all :
    (x y : Str) (ys : List Str) → x ≢ y → member y ys ≡ true → member y (erase_all x ys) ≡ true
unfolding member erase_all
member-erase_all x y [] ne m = cc
member-erase_all x y (z ∷ ys) ne m = ground (arith, member-erase_all x y ys ne)

Step-IsExclusive : {s s' : InFlight} → Step s s' → IsExclusive s → IsExclusive s'
unfolding member
Step-IsExclusive (enter s t id free absent) v = record {
  listed = λ u j e. ground (arith, v.listed u j);
  alone = λ u u' j e e'. ground (arith, v.alone u u' j, v.listed u j, v.listed u' j);
}
Step-IsExclusive (leave s t id held) v = record {
  listed =
      λ u j e. ground (arith, v.listed u j, v.alone t u j, member-erase_all id j s.in_flight_jobs);
  alone = λ u u' j e e'. ground (arith, v.alone u u' j);
}

Reach-IsExclusive : {s s' : InFlight} → IsExclusive s → Reach s s' → IsExclusive s'
Reach-IsExclusive v here = v
Reach-IsExclusive v (next r st) = Step-IsExclusive st (Reach-IsExclusive v r)

-- From a start at which no thread works, however the threads interleave, two of them that work at
-- the same time work on different jobs.
pub in_flight_exclusive :
    (s : InFlight) (t u : ℕ) (id id' : Str)
    → Reach idle s
    → t ≢ u
    → s.works_on t ≡ some id
    → s.works_on u ≡ some id'
    → id ≢ id'
in_flight_exclusive s t u id id' r ne e e' same =
    let v = Reach-IsExclusive (record { listed = λ t id h. cc; alone = λ t u id h. cc }) r in
    ne (v.alone t u id e (e' ∙ ap some (sym same)))
