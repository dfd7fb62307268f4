-- ===== src/Queue/Bag.antt =====
-- src/common/JobPriorityQueue.h: what the queue promises of its items, whatever their order.
mod Tests
use mathlib.Core.List.{Permᴰ, Perm-prop}
use mathlib.Core.List.Perm
use mathlib.Core.Logic.{∥∥₁_elim}
use mathlib.Core.Quot
use mathlib.Core.Quot.{Quot, Quot-set}
use native.Mathlib.Nat.{ℕ_set}
use qos_planner.Common.{
  ℕ, zero, suc, ◌+◌, ◌≡◌, ◌≢◌, refl, ap, ◌∙◌, ◌⊎◌, inl, inr, List, [], ◌∷◌, Bool, true, false, Perm,
  Option, none, some, ◌>>=◌, Str, Str-discrete, ite, arith, Returns, returns, Returns-bind, if_neg,
  Returns-map, get_elem?,
}
use qos_planner.Queue.{WaitingItem, Heap, push, pop, remove, peek}
use qos_planner.Queue.Contents.{push-perm, pop-perm, remove-perm, Popped, Removed}

abbrev pub Bag : Type 0
Bag = Quot (λ (q r : Heap). Perm q r)

abbrev pub contents : Heap → Bag
contents = Quot.mk

unfoldable pub add : WaitingItem → Bag → Bag
add x = Quot.lift Quot-set (λ q. contents (x ∷ q)) λ q r same. Quot.sound (Perm.cons x same)

-- How many items of the job wait.
abbrev one_if : Str → WaitingItem → ℕ
one_if job x = ite (Str-discrete x.jobid job) 1 0

abbrev count_of : Str → Heap → ℕ
count_of job [] = 0
count_of job (x ∷ q) = one_if job x + count_of job q

pub count_of-permᴰ : (job : Str) {q r : Heap} → Permᴰ q r → count_of job q ≡ count_of job r
count_of-permᴰ job (Permᴰ.trans first second) = count_of-permᴰ job first ∙ count_of-permᴰ job second
count_of-permᴰ job (Permᴰ.cons e rest) = omega (arith, ap (one_if job) e, count_of-permᴰ job rest)
count_of-permᴰ job (Permᴰ.swap e f) = omega (arith, ap (one_if job) e, ap (one_if job) f)
count_of-permᴰ job Permᴰ.nil = refl

unfoldable pub waiting : Str → Bag → ℕ
waiting job =
    Quot.lift ℕ_set (count_of job) λ q r same. ∥∥₁_elim same (ℕ_set _ _) (count_of-permᴰ job)

-- The calls, and what each returns.
pub data QueueCall : Type 0 where
  push_call : WaitingItem → QueueCall
  pop_call : QueueCall
  peek_call : QueueCall
  remove_call : Str → QueueCall

pub data QueueResult : Type 0 where
  pushed : QueueResult
  popped : Option WaitingItem → QueueResult
  peeked : Option WaitingItem → QueueResult
  removed : Bool → QueueResult

unfoldable pub run_call : QueueCall → Heap → Option (Heap × QueueResult)
run_call (push_call x) q = push q x >>= λ q'. some (q', pushed)
run_call pop_call q = pop q >>= λ (x, q'). some (q', popped x)
run_call peek_call q = some (q, peeked (peek q))
run_call (remove_call job) q = remove q job >>= λ (b, q'). some (q', removed b)

unfoldable pub run_calls : List QueueCall → Heap → Option (Heap × List QueueResult)
run_calls [] q = some (q, [])
run_calls (c ∷ cs) q = do (q', r) ← run_call c q; (q'', rs) ← run_calls cs q'; some (q'', r ∷ rs)

-- One call on the items.
pub data Serves : Bag → QueueCall → QueueResult → Bag → Type 0 where
  pushes : {b b' : Bag} (x : WaitingItem) → b' ≡ add x b → Serves b (push_call x) pushed b'
  pops : {b b' : Bag} (x : WaitingItem) → b ≡ add x b' → Serves b pop_call (popped (some x)) b'
  pops_none : Serves (contents []) pop_call (popped none) (contents [])
  peeks :
      {b : Bag} (x : WaitingItem) (others : Bag)
      → b ≡ add x others
      → Serves b peek_call (peeked (some x)) b
  peeks_none : Serves (contents []) peek_call (peeked none) (contents [])
  removes :
      {b b' : Bag} {job : Str} (x : WaitingItem)
      → x.jobid ≡ job
      → b ≡ add x b'
      → Serves b (remove_call job) (removed true) b'
  removes_none :
      {b : Bag} {job : Str} → waiting job b ≡ 0 → Serves b (remove_call job) (removed false) b

pub data Runs : Bag → List QueueCall → List QueueResult → Bag → Type 0 where
  ends : {b : Bag} → Runs b [] [] b
  goes_on :
      {b b' b'' : Bag} {c : QueueCall} {cs : List QueueCall} {r : QueueResult}
      {rs : List QueueResult}
      → Serves b c r b'
      → Runs b' cs rs b''
      → Runs b (c ∷ cs) (r ∷ rs) b''

no_item :
    (job : Str) (q : Heap)
    → ((k : ℕ) (item : WaitingItem) → get_elem? q k ≡ some item → item.jobid ≢ job)
    → count_of job q ≡ 0
no_item job [] h = refl
no_item job (x ∷ q) h =
    omega
      (arith, if_neg {C = ℕ} (Str-discrete x.jobid job) (h 0 x refl), no_item job q λ k. h (suc k))

removed-Serves :
    (q : Heap) (job : Str) (p : Bool × Heap)
    → Removed job q p
    → Serves (contents q) (remove_call job) (removed p.0) (contents p.1)
unfolding add waiting
removed-Serves q job (b, q') (inl (ok, (x, hit, same))) =
    rw ok (removes x hit (Quot.sound (Perm.symm same)))
removed-Serves q job (b, q') (inr (failed, same, none_of)) =
    rw (failed, same) (removes_none (no_item job q none_of))

popped-Serves :
    (q : Heap) (p : Option WaitingItem × Heap)
    → Popped q p
    → Serves (contents q) pop_call (popped p.0) (contents p.1)
unfolding add
popped-Serves [] (x, q') (got, left) = rw (got, left) pops_none
popped-Serves (top ∷ rest) (x, q') (got, left) =
    rw got (pops top (Quot.sound (Perm.cons top (Perm.symm left))))

run_call-Serves :
    (c : QueueCall) (q : Heap)
    → Returns (λ (q', r). Serves (contents q) c r (contents q')) (run_call c q)
unfolding run_call add peek
run_call-Serves (push_call x) q =
    Returns-bind (push-perm q x) λ q' same. returns (pushes x (Quot.sound same))
run_call-Serves pop_call q = Returns-bind (pop-perm q) λ p h. returns (popped-Serves q p h)
run_call-Serves peek_call [] = returns peeks_none
run_call-Serves peek_call (top ∷ rest) = returns (peeks top (contents rest) refl)
run_call-Serves (remove_call job) q =
    Returns-bind (remove-perm q job) λ p h. returns (removed-Serves q job p h)

-- Any calls of Push, Pop, Peek and Remove on any queue never fail, and do to its items, taken
-- without their order, what a collection does: Push adds the item; Pop takes away and returns one
-- of the items, and Peek shows one, or nothing if none waits; Remove takes away one item of the job
-- and returns true, or, if no item of the job waits, takes nothing and returns false.
pub run_calls-Runs :
    (cs : List QueueCall) (q : Heap)
    → Returns (λ (q', rs). Runs (contents q) cs rs (contents q')) (run_calls cs q)
unfolding run_calls
run_calls-Runs [] q = returns ends
run_calls-Runs (c ∷ cs) q =
    Returns-bind (run_call-Serves c q)
      λ (q', r) s. Returns-bind (run_calls-Runs cs q') λ (q'', rs) rest. returns (goes_on s rest)
