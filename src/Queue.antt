-- ===== src/Queue.antt =====
-- src/common/JobPriorityQueue.h and .cpp: the heap of waiting items, an array.
-- `none` is an index out of bounds, or that the fuel of a recursion ran out; indices stay far
-- below the range of `int`.
pub mod Access
pub mod Order
pub mod Contents
pub mod Bag
mod Tests
use qos_planner.Common.{
  ℕ, zero, suc, ◌+◌, ◌-◌, ◌*◌, ◌/◌, List, [], ◌∷◌, ◌++◌, Bool, true, false, Option, none, some, ite,
  ltb, leb, ◌==◌, if◌then◌else◌, ◌||◌, ◌>>=◌, length, get_elem?, set, take, Str, Str-discrete,
}
use qos_planner.Job.{JobEvent}

pub record WaitingItem : Type 0 where
  pub jobid : Str
  pub time_of_event : ℕ
  pub event_type : JobEvent

-- `heap_`
abbrev pub Heap : Type 0
Heap = List WaitingItem

-- `queue[i]->time_of_event`
unfoldable pub time_at : Heap → ℕ → Option ℕ
time_at q i = get_elem? q i >>= λ x. some x.time_of_event

-- The exchange of two entries through `tmp`.
unfoldable pub swap : Heap → ℕ → ℕ → Option Heap
swap q i j = do x ← get_elem? q i; y ← get_elem? q j; some (set (set q i y) j x)

-- `Up`
unfoldable pub up : ℕ → Heap → ℕ → Option Heap
unfolding time_at swap
up zero q pos = none
up (suc fuel) q pos =
    let parent = (pos - 1) / 2 in
    let rise = swap q parent pos >>= λ q'. up fuel q' parent in
    let step =
      time_at q parent >>= λ tp. time_at q pos >>= λ tc. if ltb tp tc then rise else some q in
    if pos == 0 then some q else step

-- `Down`
unfoldable pub down : ℕ → Heap → ℕ → Option Heap
unfolding time_at swap
down zero q pos = none
down (suc fuel) q pos =
    let pos_child1 = 2 * pos + 1 in
    let pos_child2 = 2 * pos + 2 in
    let sink = time_at q pos_child1 >>= λ t1. time_at q pos_child2 >>= λ t2.
    let pos_to_check = if ltb t1 t2 then pos_child1 else pos_child2 in
    time_at q pos >>= λ t. time_at q pos_to_check >>= λ tc.
    let move = swap q pos_to_check pos >>= λ q'. down fuel q' pos_to_check in
    if ltb t tc then some q else move in
    if leb (length q) pos_child1 || leb (length q) pos_child2 then some q else sink

-- `Push`
unfoldable pub push : Heap → WaitingItem → Option Heap
unfolding up
push q new_item = let grown = q ++ new_item ∷ [] in up (length grown) grown (length grown - 1)

-- `Pop`: no item, and the queue as it was, if the queue is empty.
unfoldable pub pop : Heap → Option (Option WaitingItem × Heap)
unfolding down
pop [] = some (none, [])
pop (top ∷ rest) = do
  back ← get_elem? (top ∷ rest) (length rest)
  let popped = take (length rest) (set (top ∷ rest) 0 back)
  q ← if length popped == 0 then some popped else down (length popped) popped 0
  some (some top, q)

-- The loop of `Remove`, from the index `i`.
unfoldable pub remove_loop : ℕ → ℕ → Heap → Str → Option (Bool × Heap)
unfolding down
remove_loop zero i q job = some (false, q)
remove_loop (suc left) i q job = do
  item ← get_elem? q i
  back ← get_elem? q (length q - 1)
  let popped = take (length q - 1) (set q i back)
  let found =
      if i == length q - 1
      then some (true, popped)
      else (down (length q) popped i >>= λ q'. some (true, q'))
  let rest = remove_loop left (suc i) q job
  ite (Str-discrete item.jobid job) found rest

-- `Remove`
unfoldable pub remove : Heap → Str → Option (Bool × Heap)
unfolding remove_loop
remove q job = remove_loop (length q) 0 q job

-- `Peek`
unfoldable pub peek : Heap → Option WaitingItem
peek [] = none
peek (top ∷ rest) = some top
