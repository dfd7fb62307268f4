-- ===== src/System/Ruled.antt =====
-- The rules that RuleManager keeps, against the jobs that are active in the schedule.
use qos_planner.Common.{
  ℕ, ◌≡◌, ◌≢◌, List, [], ◌++◌, Bool, true, false, ◌||◌, Option, none, some, ite, refl, ◌∙◌, subst,
  if_pos, if_neg, if◌then◌else◌, Str, Str-discrete, arith, Bool-cases, Option-cases, inl, inr,
}
use qos_planner.Common.Map.{find, find-assign, find-erase}
use qos_planner.Job.{Job, scheduled, active, JobState-discrete, set_state}
use qos_planner.Schedule.{Schedule}
use qos_planner.Schedule.Valid.{view}
use qos_planner.Lustre.{Lustre}
use qos_planner.Rules.{
  RuleManager, NrsCall, is_empty, is_some, RuleDefinition, compute_oss_to_mbs, determine_ost_ips,
  lustre_tbf_rule_postfix, set_rules_async, set_rules_on, set_rules, remove_rules,
}
use qos_planner.Monitor.{JobMonitor, World}
use qos_planner.Monitor.Start.{StartOutcome}
use qos_planner.Monitor.Stop.{Retracted}

abbrev pub is_active : Option Job → Bool
is_active none = false
is_active (some j) = ite (JobState-discrete j.state active) true false

-- The rule manager has rules for the active jobs, and for no other.
abbrev pub IsRuled : Schedule → RuleManager → Type 0
IsRuled s rm = (k : Str) → is_some (find k rm.active_rules) ≡ is_active (view s k)

abbrev pub has_rules : RuleManager → Str → Bool
has_rules rm k = is_some (find k rm.active_rules)

set_rules_on-has_rules :
    (result : NrsCall → Bool)
    → (order : List (Str × ℕ) → List (Str × ℕ))
    → (rm : RuleManager) (ips : List Str) (jobid k : Str) (mbs : ℕ)
    → has_rules (set_rules_on result order rm ips jobid mbs).0 k ≡ (
        if (set_rules_on result order rm ips jobid mbs).1
        then ite (Str-discrete jobid k) true (has_rules rm k)
        else has_rules rm k)
unfolding set_rules_on
set_rules_on-has_rules result order rm ips jobid k mbs =
    let rule : RuleDefinition = record {
      rule_name = lustre_tbf_rule_postfix ++ jobid;
      ost_ips = (compute_oss_to_mbs mbs ips [] []).1;
    } in
    elim (Bool-cases (set_rules_on result order rm ips jobid mbs).1) [
      | inl set ↦ unfold set_rules_async in ground (arith, find-assign jobid k rule rm.active_rules)
      | inr failed ↦ unfold set_rules_async in ground arith
    ]

pub set_rules-has_rules :
    (lustre : Lustre)
    → (result : NrsCall → Bool) → (order : List (Str × ℕ) → List (Str × ℕ))
    → (rm : RuleManager) (osts : List Str) (jobid k : Str) (mbs : ℕ)
    → has_rules (set_rules lustre result order rm osts jobid mbs).0 k ≡ (
        if (set_rules lustre result order rm osts jobid mbs).1
        then ite (Str-discrete jobid k) true (has_rules rm k)
        else has_rules rm k)
unfolding set_rules
set_rules-has_rules lustre result order rm osts jobid k mbs =
    let (ids, ips, found) = determine_ost_ips lustre rm.ids rm.ips osts in
    elim (Bool-cases (is_empty osts || is_some (find jobid rm.active_rules))) [
      | inl refused ↦ rw refused
      | inr free ↦ rw free (elim (Option-cases found) [
        | inl failed ↦ rw failed
        | inr (addresses, resolved) ↦ rw resolved (
            set_rules_on-has_rules result order (record rm { ids = ids; ips = ips }) addresses jobid
              k mbs)
      ])
    ]

remove_rules-has_rules :
    (rm : RuleManager) (jobid k : Str)
    → has_rules (remove_rules rm jobid).0 k ≡ ite (Str-discrete jobid k) false (has_rules rm k)
unfolding remove_rules
remove_rules-has_rules rm jobid k = elim (Option-cases (find jobid rm.active_rules)) [
  | inl missing ↦ ground arith
  | inr (rule, found) ↦ ground (arith, find-erase jobid k rm.active_rules)
]

is_active-idle :
    (known : Option Job) → ((j : Job) → known ≡ some j → j.state ≢ active) → is_active known ≡ false
is_active-idle none idle = refl
is_active-idle (some j) idle = rw (if_neg _ (idle j refl))

-- The job is forgotten, and its rules with it.
pub retract-IsRuled :
    (m : JobMonitor) (jobid : Str) (rules : RuleManager) (s : Schedule)
    → IsRuled m.schedule m.rules
    → Retracted m jobid rules
    → ((k : Str) → view s k ≡ ite (Str-discrete jobid k) none (view m.schedule k))
    → IsRuled s rules
retract-IsRuled m jobid rules s v (inl (same, idle)) views k =
    rw same (elim (Str-discrete jobid k) [
      | yes hit ↦
          rw (views k, if_pos _ hit)
            (v k
              ∙ is_active-idle (view m.schedule k)
                  (subst (λ i. (j : Job) → view m.schedule i ≡ some j → j.state ≢ active) hit idle))
      | no miss ↦ ground (arith, v k, views k)
    ])
retract-IsRuled m jobid rules s v (inr removed) views k =
    rw removed (ground (arith, v k, views k, remove_rules-has_rules m.rules jobid k))

-- The outcome of a start.
pub start-IsRuled :
    (w : World) (m : JobMonitor) (jobid : Str) (r : JobMonitor × Bool)
    → IsRuled m.schedule m.rules
    → StartOutcome w m jobid r
    → IsRuled r.0.schedule r.0.rules
start-IsRuled w m jobid r v (inl (same, _)) k = rw same (v k)
start-IsRuled w m jobid r v (inr (j, _, _, inl (failed, same))) k = rw same (
    set_rules-has_rules w.lustre w.result w.order m.rules j.osts jobid k j.min_read_throughput
    ∙ rw failed (v k))
start-IsRuled w m jobid r v (inr (j, _, _, inr (set, _, s))) k = rw s.rules (
    set_rules-has_rules w.lustre w.result w.order m.rules j.osts jobid k j.min_read_throughput
    ∙ rw set (ground (arith, v k, s.states k)))

-- A job is admitted.
pub admit-IsRuled :
    (s s' : Schedule) (rm rm' : RuleManager) (job : Job)
    → IsRuled s rm
    → rm' ≡ rm
    → view s job.jobid ≡ none
    → ((k : Str)
        → view s' k ≡ ite (Str-discrete job.jobid k) (some (set_state scheduled job)) (view s k))
    → IsRuled s' rm'
admit-IsRuled s s' rm rm' job v same free views k = rw same (ground (arith, v k, views k))
