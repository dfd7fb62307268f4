-- ===== src/System/Watch.antt =====
-- The invariant that ties the queue to the schedule, and the changes of both that keep it.
use mathlib.Core.List.{mem-cons_self, mem-cons_of_mem}
use mathlib.Core.List.Perm
use qos_planner.Common.{
  ◌+◌, ◌≤◌, ◌≡◌, sym, ap, ◌∙◌, ◌∷◌, Mem, Perm, none, some, some_eq, ite, Str, Str-discrete, arith,
}
use qos_planner.Job.{Job, jobstart, jobstop, scheduled, active, set_state}
use qos_planner.Queue.{WaitingItem, Heap}
use qos_planner.Schedule.{Schedule}
use qos_planner.Schedule.Valid.{IsValid, view}
use qos_planner.Monitor.{item}
use qos_planner.System.Waiting.{one, waiting, waiting-perm, mem-left}

pub record IsWatched (s : Schedule) (q : Heap) : Type 0 where
  pub valid : IsValid s
  -- at most one event of a job waits
  pub single : (k : Str) → waiting k q ≤ 1
  -- the stop of an active job waits
  pub stops :
      (k : Str) (j : Job) → view s k ≡ some j → j.state ≡ active → Mem (item k j.tend jobstop) q
  -- no event of an unknown job waits
  pub unknown : (k : Str) → view s k ≡ none → waiting k q ≡ 0

-- The count of a queue that has one item more than another.
more_waiting :
    (k : Str) (x : WaitingItem) (q rest : Heap)
    → Perm (x ∷ rest) q
    → one k x + waiting k rest ≡ waiting k q
unfolding waiting
more_waiting k x q rest same = waiting-perm k same

-- An item is taken away.
module _ (s : Schedule) (q rest : Heap) (x : WaitingItem) (w : IsWatched s q)
    (same : Perm (x ∷ rest) q) where
  rest_single : (k : Str) → waiting k rest ≤ 1
  rest_single k = omega (arith, w.single k, more_waiting k x q rest same)

  -- Its job is forgotten.
  pub forget-IsWatched :
      (s' : Schedule)
      → IsValid s'
      → ((k : Str) → view s' k ≡ ite (Str-discrete x.jobid k) none (view s k))
      → IsWatched s' rest
  forget-IsWatched s' valid views = record {
    valid = valid;
    single = rest_single;
    stops = λ k j e act. elim (Str-discrete x.jobid k) [
      | yes hit ↦ absurd (let no_job : ⊥ = ground (arith, views k) in no_job)
      | no miss ↦
          mem-left x (item k j.tend jobstop) q rest same (w.stops k j (ground (arith, views k)) act)
            (λ e. miss (sym (ap (λ (i : WaitingItem). i.jobid) e)))
    ];
    unknown = λ k e. ground (arith, views k, w.single k, w.unknown k, more_waiting k x q rest same);
  }

  -- It was a start that does not happen.
  pub drop-IsWatched : x.event_type ≡ jobstart → IsWatched s rest
  drop-IsWatched start = record {
    valid = w.valid;
    single = rest_single;
    stops = λ k j e act. mem-left x (item k j.tend jobstop) q rest same (w.stops k j e act) (λ e.
        let clash : jobstop ≡ jobstart = ap (λ (i : WaitingItem). i.event_type) e ∙ start in
        absurd (let no_stop : ⊥ = cc in no_stop));
    unknown = λ k e. omega (arith, w.unknown k e, more_waiting k x q rest same);
  }

  -- It was a start, its job is active, and the stop waits.
  pub start-IsWatched :
      (s' : Schedule) (q' : Heap) (j : Job)
      → x.event_type ≡ jobstart
      → view s x.jobid ≡ some j
      → IsValid s'
      → ((k : Str)
          → view s' k ≡ ite (Str-discrete x.jobid k) (some (set_state active j)) (view s k))
      → Perm q' (item x.jobid j.tend jobstop ∷ rest)
      → IsWatched s' q'
  start-IsWatched s' q' j start known valid views grown = record {
    valid = valid;
    single = λ k. ground (
      arith,
      w.single k,
      more_waiting k x q rest same,
      more_waiting k (item x.jobid j.tend jobstop) q' rest (Perm.symm grown),
    );
    stops = λ k i e act. (Perm.mem_iff grown).1 (elim (Str-discrete x.jobid k) [
      | yes hit ↦
          let own : some (set_state active j) ≡ some i = ground (arith, views k) in
          let eq : item k i.tend jobstop ≡ item x.jobid j.tend jobstop =
            ground (arith, ap (λ (y : Job). y.tend) (some_eq own)) in
          rw eq mem-cons_self
      | no miss ↦ mem-cons_of_mem _ (
          mem-left x (item k i.tend jobstop) q rest same (w.stops k i (ground (arith, views k)) act)
            (λ e. miss (sym (ap (λ (y : WaitingItem). y.jobid) e))))
    ]);
    unknown = λ k e. ground (
      arith,
      views k,
      w.unknown k,
      w.single k,
      more_waiting k x q rest same,
      more_waiting k (item x.jobid j.tend jobstop) q' rest (Perm.symm grown),
    );
  }

-- A job is forgotten that no event waits for.
pub absent-IsWatched :
    (s s' : Schedule) (q : Heap) (jobid : Str)
    → IsWatched s q
    → waiting jobid q ≡ 0
    → IsValid s'
    → ((k : Str) → view s' k ≡ ite (Str-discrete jobid k) none (view s k))
    → IsWatched s' q
absent-IsWatched s s' q jobid w absent valid views = record {
  valid = valid;
  single = w.single;
  stops = λ k j e act. w.stops k j (ground (arith, views k)) act;
  unknown = λ k e. ground (arith, views k, w.unknown k);
}

-- A job is admitted, and its start waits.
pub admit-IsWatched :
    (s s' : Schedule) (q q' : Heap) (job : Job)
    → IsWatched s q
    → view s job.jobid ≡ none
    → IsValid s'
    → ((k : Str)
        → view s' k ≡ ite (Str-discrete job.jobid k) (some (set_state scheduled job)) (view s k))
    → Perm q' (item job.jobid job.tstart jobstart ∷ q)
    → IsWatched s' q'
admit-IsWatched s s' q q' job w free valid views grown = record {
  valid = valid;
  single = λ k. ground (
    arith,
    w.single k,
    w.unknown k,
    more_waiting k (item job.jobid job.tstart jobstart) q' q (Perm.symm grown),
  );
  stops = λ k j e act.
      (Perm.mem_iff grown).1 (mem-cons_of_mem _ (w.stops k j (ground (arith, views k)) act));
  unknown = λ k e. ground (
    arith,
    views k,
    w.unknown k,
    more_waiting k (item job.jobid job.tstart jobstart) q' q (Perm.symm grown),
  );
}
