-- ===== src/Cluster/Tests.antt =====
-- Runs of the cluster state.
use qos_planner.Common.{◌<◌, ◌≡◌, ◌≢◌, ◌⊎◌, refl, [], true, false, arith}
use qos_planner.Rules.Samples.{answers}
use qos_planner.Cluster.{ClusterState}
use qos_planner.Cluster.Threads.{
  Threads, Step, Reach, spawned, looping, ended, working, waiting, finished, steps_left,
  tear_down_ends,
}

abbrev fresh : ClusterState
fresh = record { ost_state_map = []; update_thread_started = true }

-- The thread has begun, and TearDown waits for it.
abbrev begun : Threads
begun = record (spawned fresh) { is_active = true; updater = looping }

abbrev torn_down : Threads
torn_down = record begun { exit_flag = true; caller = waiting }

tear_down_ends_example :
    ((t : Threads)
      → Step torn_down t
      → (steps_left t < steps_left torn_down) × (t.caller ≢ working))
    × (((torn_down.caller ≡ finished) × (torn_down.updater ≡ ended) × (torn_down.is_active ≡ false))
        ⊎ ((t : Threads) × Step torn_down t))
tear_down_ends_example =
    tear_down_ends answers fresh torn_down
      (Reach.next (Reach.next Reach.here (Step.begin refl refl)) (Step.tear_down refl refl))
      (ground arith)
