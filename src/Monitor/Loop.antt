-- ===== src/Monitor/Loop.antt =====
-- The inner loop of `Monitor`, and what the items of the queue weigh for its termination.
use mathlib.Core.List.{Permᴰ}
use mathlib.Core.List.Perm
use mathlib.Core.Path.{ap₂}
use mathlib.Core.Logic.{∥∥₁_elim}
use native.Mathlib.Nat.{ℕ_set}
use qos_planner.Common.{
  ℕ, zero, suc, ◌+◌, ◌<◌, ◌≡◌, refl, ap, ◌∙◌, [], ◌∷◌, Bool, true, false, Option, some, Str, arith,
  Perm, Bool-cases, inl, inr, Returns, returns, Returns-bind, Returns-map, Returns-both,
}
use qos_planner.Job.{JobEvent, jobstart, jobstop}
use qos_planner.Queue.{WaitingItem, Heap}
use qos_planner.Queue.Contents.{Popped, pop-perm}
use qos_planner.Schedule.Valid.{IsValid}
use qos_planner.Monitor.{JobMonitor, World, is_there_a_ready_job, handle, monitor_loop}
use qos_planner.Monitor.Start.{StartOutcome, start_job_correct}
use qos_planner.Monitor.Stop.{handle-jobstop}

-- How many events an item stands for.
abbrev pub cost : JobEvent → ℕ
cost jobstart = 2
cost jobstop = 1

abbrev pub weight : Heap → ℕ
weight [] = 0
weight (x ∷ q) = cost x.event_type + weight q

cost-eq : {x y : WaitingItem} → x ≡ y → cost x.event_type ≡ cost y.event_type
cost-eq e = ap (λ (i : WaitingItem). cost i.event_type) e

Permᴰ-weight : {p q : Heap} → Permᴰ p q → weight p ≡ weight q
Permᴰ-weight Permᴰ.nil = refl
Permᴰ-weight (Permᴰ.cons e p) = ap₂ ◌+◌ (cost-eq e) (Permᴰ-weight p)
Permᴰ-weight (Permᴰ.swap e f) = omega (arith, cost-eq e, cost-eq f)
Permᴰ-weight (Permᴰ.trans p q) = Permᴰ-weight p ∙ Permᴰ-weight q

perm-weight : {p q : Heap} → Perm p q → weight p ≡ weight q
perm-weight p = ∥∥₁_elim p (ℕ_set _ _) Permᴰ-weight

abbrev pub Lighter : JobMonitor → JobEvent → JobMonitor → Type 0
Lighter m event m' = IsValid m'.schedule × (weight m'.queue < weight m.queue + cost event)

StartOutcome-Lighter :
    (w : World) (m : JobMonitor) (jobid : Str) (r : JobMonitor × Bool)
    → IsValid m.schedule
    → StartOutcome w m jobid r
    → Lighter m jobstart r.0
StartOutcome-Lighter w m jobid r v (inl (same, _)) = rw same (v, omega arith)
StartOutcome-Lighter w m jobid r v (inr (j, _, _, inl (_, same))) = rw same (v, omega arith)
StartOutcome-Lighter w m jobid r v (inr (j, _, _, inr (_, _, s))) =
    (s.valid, omega (arith, perm-weight s.waiting))

pub handle-Lighter :
    (w : World) (m : JobMonitor) (jobid : Str) (event : JobEvent)
    → IsValid m.schedule
    → Returns (Lighter m event) (handle w m jobid event)
unfolding handle
handle-Lighter w m jobid jobstart v =
    Returns-bind (start_job_correct w m jobid v)
      λ r o. returns (StartOutcome-Lighter w m jobid r v o)
handle-Lighter w m jobid jobstop v =
    Returns-map (handle-jobstop w m jobid v)
      λ m' (valid, same, _, _). (valid, omega (arith, ap weight same))

-- A ready job makes the queue hold a first item.
pub ready-pop :
    (q : Heap) (now : ℕ) (p : Option WaitingItem × Heap)
    → is_there_a_ready_job q now ≡ true
    → Popped q p
    → (x : WaitingItem) × (p.0 ≡ some x)
      × (weight p.1 + cost x.event_type ≡ weight q)
      × Perm (x ∷ p.1) q
unfolding is_there_a_ready_job
ready-pop [] now p ready o = cc
ready-pop (top ∷ q) now p ready (front, rest) =
    (top, front, omega (arith, perm-weight rest), Perm.cons top rest)

-- What every event keeps, the inner loop keeps; it ends at a test that finds no ready job.
pub monitor_loop-keeps {ℓ} :
    (P : JobMonitor → Type ℓ) (w : World)
    → ((m : JobMonitor) → P m → IsValid m.schedule)
    → ((m : JobMonitor) (x : WaitingItem) (q : Heap)
        → P m
        → Perm (x ∷ q) m.queue
        → Returns P (handle w (record m { queue = q }) x.jobid x.event_type))
    → (fuel : ℕ) (clock : ℕ → ℕ) (m : JobMonitor) → P m
    → weight m.queue < fuel
    → Returns
        (λ m'. P m' × ((i : ℕ) × (is_there_a_ready_job m'.queue (clock i) ≡ false)))
        (monitor_loop fuel w clock m)
unfolding monitor_loop
monitor_loop-keeps P w valid keeps zero clock m p f = absurd (omega arith)
monitor_loop-keeps P w valid keeps (suc fuel) clock m p f =
    elim (Bool-cases (is_there_a_ready_job m.queue (clock 0))) [
      | inr quiet ↦ rw quiet (returns (p, (0, quiet)))
      | inl ready ↦ rw ready (
          Returns-bind (pop-perm m.queue) λ r o.
            let (x, front, total, same) = ready-pop m.queue (clock 0) r ready o in
            rw front (
              Returns-bind
                (Returns-both (keeps m x r.1 p same)
                  (handle-Lighter w (record m { queue = r.1 }) x.jobid x.event_type (valid m p)))
                λ m' (p', (_, lighter)).
                  Returns-map
                    (monitor_loop-keeps P w valid keeps fuel (λ i. clock (suc i)) m' p'
                      (omega arith))
                    λ m'' (ended, (i, quiet)). (ended, (suc i, quiet))))
    ]

-- On a valid schedule, with fuel for the events that the queue stands for, the inner loop of
-- Monitor ends without undefined behaviour, on a valid schedule, at a test that finds no ready job,
-- whatever the clock says.
pub monitor_loop_ends :
    (fuel : ℕ) (w : World) (clock : ℕ → ℕ) (m : JobMonitor)
    → IsValid m.schedule
    → weight m.queue < fuel
    → Returns
        (λ m'. IsValid m'.schedule × ((i : ℕ) × (is_there_a_ready_job m'.queue (clock i) ≡ false)))
        (monitor_loop fuel w clock m)
monitor_loop_ends fuel w clock m v f =
    monitor_loop-keeps (λ m. IsValid m.schedule) w (λ m v. v)
      (λ m x q v same.
        Returns-map (handle-Lighter w (record m { queue = q }) x.jobid x.event_type v)
          λ m' (valid, _). valid)
      fuel clock m v f
