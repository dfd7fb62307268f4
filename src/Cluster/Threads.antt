-- ===== src/Cluster/Threads.antt =====
-- The thread of src/common/ClusterState.cpp that repeats `Update` (updateRepeatedly), and the caller of
-- `TearDown`. A step is a critical section of `state_mut_`, a read of the exit flag, or the end of a
-- wait.
use qos_planner.Common.{ℕ, ◌+◌, ◌<◌, ◌≡◌, ◌≢◌, ◌⊎◌, refl, Bool, true, false, arith, inl, inr}
use qos_planner.Lustre.{Lustre}
use qos_planner.Cluster.{ClusterState, update}

-- Where the thread stands: before its first lock, at the test of its loop, in the body, behind the loop,
-- and at its end.
pub data Updater : Type 0 where
  starting looping updating leaving ended : Updater

-- Where the other thread stands: before TearDown, in the wait for the flag, at the join, and behind it.
pub data Caller : Type 0 where
  working waiting joining finished : Caller

pub record Threads : Type 0 where
  pub cluster : ClusterState
  pub updater : Updater
  pub caller : Caller
  pub is_active : Bool
  pub exit_flag : Bool

pub data Step (s : Threads) : Threads → Type 0 where
  begin :
      s.updater ≡ starting
      → s.exit_flag ≡ false
      → Step s (record s { is_active = true; updater = looping })
  begin_late : s.updater ≡ starting → s.exit_flag ≡ true → Step s (record s { updater = ended })
  go_on : s.updater ≡ looping → s.exit_flag ≡ false → Step s (record s { updater = updating })
  update_once :
      (lustre : Lustre)
      → s.updater ≡ updating
      → Step s (record s { cluster = (update lustre s.cluster).0; updater = looping })
  stop : s.updater ≡ looping → s.exit_flag ≡ true → Step s (record s { updater = leaving })
  leave : s.updater ≡ leaving → Step s (record s { is_active = false; updater = ended })
  tear_down :
      s.caller ≡ working
      → s.is_active ≡ true
      → Step s (record s { exit_flag = true; caller = waiting })
  tear_down_idle :
      s.caller ≡ working
      → s.is_active ≡ false
      → Step s (record s { exit_flag = true; caller = joining })
  wake : s.caller ≡ waiting → s.is_active ≡ false → Step s (record s { caller = joining })
  join : s.caller ≡ joining → s.updater ≡ ended → Step s (record s { caller = finished })

pub data Reach (s : Threads) : Threads → Type 0 where
  here : Reach s s
  next : {t u : Threads} → Reach s t → Step t u → Reach s u

-- `Init` has spawned the thread.
abbrev pub spawned : ClusterState → Threads
spawned c = record {
  cluster = c;
  updater = starting;
  caller = working;
  is_active = false;
  exit_flag = false;
}

-- Between the first lock of the thread and its last one.
abbrev pub is_running : Updater → Bool
is_running starting = false
is_running ended = false
is_running _ = true

record IsConsistent (s : Threads) : Type 0 where
  active : s.is_active ≡ is_running s.updater
  leaves : s.updater ≡ leaving → s.exit_flag ≡ true
  told : s.caller ≢ working → s.exit_flag ≡ true
  joined : s.caller ≡ finished → s.updater ≡ ended

Step-IsConsistent : {s t : Threads} → Step s t → IsConsistent s → IsConsistent t
Step-IsConsistent (begin at off) c = ground arith
Step-IsConsistent (begin_late at off) c = ground arith
Step-IsConsistent (go_on at off) c = ground arith
Step-IsConsistent (update_once lustre at) c = ground arith
Step-IsConsistent (stop at on) c = ground arith
Step-IsConsistent (leave at) c = ground arith
Step-IsConsistent (tear_down at on) c = ground arith
Step-IsConsistent (tear_down_idle at off) c = ground arith
Step-IsConsistent (wake at off) c = ground arith
Step-IsConsistent (join at off) c = ground arith

Reach-IsConsistent : {s t : Threads} → IsConsistent s → Reach s t → IsConsistent t
Reach-IsConsistent c here = c
Reach-IsConsistent c (next r st) = Step-IsConsistent st (Reach-IsConsistent c r)

-- How many steps are left at most, once the flag is set.
abbrev pub updater_left : Updater → ℕ
updater_left starting = 1
updater_left updating = 3
updater_left looping = 2
updater_left leaving = 1
updater_left ended = 0

abbrev pub caller_left : Caller → ℕ
caller_left working = 3
caller_left waiting = 2
caller_left joining = 1
caller_left finished = 0

abbrev pub steps_left : Threads → ℕ
steps_left s = updater_left s.updater + caller_left s.caller

Step-lt :
    {s t : Threads}
    → Step s t
    → IsConsistent s
    → s.caller ≢ working
    → (steps_left t < steps_left s) × (t.caller ≢ working)
Step-lt (begin at off) c torn = let on = c.told torn in absurd (let no : ⊥ = cc in no)
Step-lt (begin_late at on) c torn = ground arith
Step-lt (go_on at off) c torn = ground arith
Step-lt (update_once lustre at) c torn = ground arith
Step-lt (stop at on) c torn = ground arith
Step-lt (leave at) c torn = ground arith
Step-lt (tear_down at on) c torn = ground arith
Step-lt (tear_down_idle at off) c torn = ground arith
Step-lt (wake at off) c torn = ground arith
Step-lt (join at off) c torn = ground arith

-- Until it has ended, the thread can make a step once it has been told to stop.
updater_goes_on :
    (lustre : Lustre) (s : Threads) (u : Updater)
    → s.updater ≡ u
    → s.exit_flag ≡ true
    → (s.updater ≡ ended) ⊎ ((t : Threads) × Step s t)
updater_goes_on lustre s starting at on = inr (_, begin_late at on)
updater_goes_on lustre s looping at on = inr (_, stop at on)
updater_goes_on lustre s updating at on = inr (_, update_once lustre at)
updater_goes_on lustre s leaving at on = inr (_, leave at)
updater_goes_on lustre s ended at on = inl at

-- Once the thread has ended, TearDown can make a step until it has returned.
caller_goes_on :
    (s : Threads) (c : Caller)
    → s.caller ≡ c
    → IsConsistent s
    → s.caller ≢ working
    → s.updater ≡ ended
    → (s.caller ≡ finished) ⊎ ((t : Threads) × Step s t)
caller_goes_on s working at c torn over = absurd (torn at)
caller_goes_on s waiting at c torn over = inr (_, wake at (ground (arith, c.active)))
caller_goes_on s joining at c torn over = inr (_, join at over)
caller_goes_on s finished at c torn over = inl at

spawned-IsConsistent : (c : ClusterState) → IsConsistent (spawned c)
spawned-IsConsistent c = ground arith

-- For a cluster state with its thread started, however the steps of the thread and those of the
-- caller of TearDown interleave: once TearDown has been called, each step lowers the number of
-- steps that are left, and until TearDown has returned a step is possible; when it has returned,
-- the thread has ended and does not count as active.
pub tear_down_ends :
    (lustre : Lustre) (c : ClusterState) (s : Threads)
    → Reach (spawned c) s
    → s.caller ≢ working
    → ((t : Threads) → Step s t → (steps_left t < steps_left s) × (t.caller ≢ working))
      × (((s.caller ≡ finished) × (s.updater ≡ ended) × (s.is_active ≡ false))
          ⊎ ((t : Threads) × Step s t))
tear_down_ends lustre c s r torn =
    let ok = Reach-IsConsistent (spawned-IsConsistent c) r in
    (
      λ t st. Step-lt st ok torn,
      (elim (updater_goes_on lustre s s.updater refl (ok.told torn)) [
        | inr go ↦ inr go
        | inl over ↦ elim (caller_goes_on s s.caller refl ok torn over) [
          | inr go ↦ inr go
          | inl fin ↦ inl (fin, over, ground (arith, ok.active))
        ]
      ]),
    )
