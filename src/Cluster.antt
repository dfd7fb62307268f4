-- ===== src/Cluster.antt =====
-- src/common/ClusterState.h and .cpp: the measured workload of each OST. Each method but
-- `UpdateNode` holds `state_mut_`; the thread that repeats `Update` is in Cluster/Threads.
pub mod Threads
mod Tests
use qos_planner.Common.{
  ℕ, ◌≡◌, refl, List, [], ◌∷◌, map, Bool, true, false, not, Option, none, some, ite, arith, Str,
  Str-discrete, if◌then◌else◌,
}
use qos_planner.Common.Map.{find, assign, find-assign}
use qos_planner.Lustre.{Lustre, OstsResults}

-- `OSTWorkload`
pub record OstWorkload : Type 0 where
  pub ost : Str
  pub current_rpc_sec : ℕ
  pub max_rpc_sec : ℕ

-- `MemoryClusterState`
pub record ClusterState : Type 0 where
  pub ost_state_map : List (Str × OstWorkload)
  pub update_thread_started : Bool

abbrev pub default_rpc_rate : ℕ
default_rpc_rate = 500

-- `getOstState`
unfoldable pub get_ost_workload : ClusterState → Str → Option OstWorkload
get_ost_workload c id = find id c.ost_state_map

-- `GetOSTList`: the uuids, in the order of the numbers.
unfoldable pub get_ost_names : ClusterState → List Str
get_ost_names c = map (λ e. e.1.ost) c.ost_state_map

abbrev pub fresh_workload : OstsResults → OstWorkload
fresh_workload r = record { ost = r.uuid; current_rpc_sec = 0; max_rpc_sec = default_rpc_rate }

-- The loop of `Update`.
unfoldable pub update_all : List OstsResults → List (Str × OstWorkload) → List (Str × OstWorkload)
update_all [] m = m
update_all (r ∷ rs) m = update_all rs (assign r.number (fresh_workload r) m)

-- `Update`
unfoldable pub update : Lustre → ClusterState → ClusterState × Bool
unfolding update_all
update lustre c = elim (lustre.get_ost_list []) [
  | none ↦ (c, false)
  | some rs ↦ (record c { ost_state_map = update_all rs c.ost_state_map }, true)
]

-- `UpdateNode`
unfoldable pub update_node : Str → OstWorkload → ClusterState → ClusterState
update_node name w c = record c { ost_state_map = assign name w c.ost_state_map }

-- `Init`
unfoldable pub init : Lustre → ClusterState → ClusterState × Bool
unfolding update
init lustre c =
    let (c', updated) = update lustre c in
    if not updated
    then (c', false)
    else (if c'.update_thread_started
        then (c', false)
        else (record c' { update_thread_started = true }, true))

-- The entry of a number in a list of OSTs; a later one replaces an earlier one.
unfoldable pub listed : Str → List OstsResults → Option OstsResults
listed n [] = none
listed n (r ∷ rs) = elim (listed n rs) [
  | some later ↦ some later
  | none ↦ ite (Str-discrete r.number n) (some r) none
]

find-update_all :
    (n : Str) (rs : List OstsResults) (m : List (Str × OstWorkload))
    → find n (update_all rs m)
      ≡ elim (listed n rs) [ none ↦ find n m | some r ↦ some (fresh_workload r) ]
unfolding update_all listed
find-update_all n [] m = refl
find-update_all n (r ∷ rs) m = ground (
  arith,
  find-update_all n rs (assign r.number (fresh_workload r) m),
  find-assign r.number n (fresh_workload r) m,
)

-- After a successful Update each OST that Lustre lists has the default rate and no load, and each
-- OST that Lustre has ceased to list keeps its old entry; a failed Update changes nothing.
pub get_ost_workload-update :
    (lustre : Lustre) (c : ClusterState) (n : Str)
    → (((lustre.get_ost_list [] ≡ none) → update lustre c ≡ (c, false)))
      × ((rs : List OstsResults)
          → lustre.get_ost_list [] ≡ some rs
          → ((update lustre c).1 ≡ true)
            × (get_ost_workload (update lustre c).0 n ≡ elim (listed n rs) [
              | none ↦ get_ost_workload c n
              | some r ↦ some (fresh_workload r)
            ]))
unfolding update get_ost_workload
get_ost_workload-update lustre c n = (
  (λ e. ground arith),
  λ rs e. (ground arith, ground (arith, find-update_all n rs c.ost_state_map)),
)
