-- ===== src/Queue/Access.antt =====
-- Reads and exchanges in bounds.
use mathlib.Core.List.Perm
use qos_planner.Common.{
  ℕ, ◌<◌, ◌≡◌, Option, none, some, Perm, arith, length, get_elem?, set, ◌==◌, if◌then◌else◌,
  Returns, returns, get_elem?-lt, get_elem?-set, set-perm, length-set, length-perm,
}
use qos_planner.Queue.{WaitingItem, Heap, time_at, swap}

time_of : Option WaitingItem → ℕ
time_of none = 0
time_of (some x) = x.time_of_event

-- The time of the entry at `i`.
unfoldable pub key : Heap → ℕ → ℕ
unfolding time_of
key q i = time_of (get_elem? q i)

pub time_at-key : (q : Heap) (i : ℕ) → i < length q → time_at q i ≡ some (key q i)
unfolding time_at key
time_at-key q i h = let (x, e) = get_elem?-lt q i h in rw (e, time_of)

-- `r` is `q` with the entries at `i` and `j` exchanged.
pub record Swapped (q : Heap) (i j : ℕ) (r : Heap) : Type 0 where
  pub same : Perm r q
  pub size : length r ≡ length q
  pub keys : (c : ℕ) → key r c ≡ (if j == c then key q i else if i == c then key q j else key q c)

module _ (q : Heap) (i j : ℕ) (hi : i < length q) (hj : j < length q) where
  exchanged :
      (x y : WaitingItem)
      → get_elem? q i ≡ some x
      → get_elem? q j ≡ some y
      → Swapped q i j (set (set q i y) j x)
  unfolding key
  exchanged x y ex ey =
      let b = set q i y in
      let kept : get_elem? b j ≡ some y = ground (arith, get_elem?-set q i j y) in
      let second = set-perm b j y x kept in
      let same = Perm.cons_inv (Perm.trans second (set-perm q i x y ex)) in
      record {
        same = same;
        size = length-perm same;
        keys = λ c. ground (arith, get_elem?-set b j c x, get_elem?-set q i c y, length-set q i y);
      }

  pub swap-Returns : Returns (Swapped q i j) (swap q i j)
  unfolding swap
  swap-Returns =
      let (x, ex) = get_elem?-lt q i hi in
      let (y, ey) = get_elem?-lt q j hj in rw (ex, ey) (returns (exchanged x y ex ey))
