-- ===== src/Rules/Calls.antt =====
-- `SetRules` and `RemoveRules` of src/common/RuleManager.cpp: the calls that they make, on every branch.
use qos_planner.Common.{
  Perm, ℕ, ◌≡◌, ◌≢◌, ◌⊎◌, List, [], ◌++◌, map, Bool, true, false, Option, none, some, Str, ◌||◌,
}
use qos_planner.Common.Map.{find, assign}
use qos_planner.Lustre.{Lustre}
use qos_planner.Rules.{
  RuleManager, NrsCall, remove_rule, is_empty, is_some, determine_ost_ips, lustre_tbf_rule_postfix,
}
use qos_planner.Rules.Requests.{calls_of}
use qos_planner.Rules.Shares.{count, share, present}
use qos_planner.Rules.Async.{AllSet}
use qos_planner.Rules.Manager.{Resolved}

module _ (lustre : Lustre) (result : NrsCall → Bool) (order : List (Str × ℕ) → List (Str × ℕ))
    (rm : RuleManager) (ost_ids : List Str) (job_id : Str) (mbs : ℕ) where
  abbrev pub rule : Str
  rule = lustre_tbf_rule_postfix ++ job_id

  abbrev pub Answer : Type 0
  Answer = RuleManager × Bool × List NrsCall

  -- What the machines of the OSTs are asked for, and what comes of it.
  abbrev pub Asked : List Str → Answer → Type 0
  Asked ost_ips r =
      (m entries : List (Str × ℕ)) × (machines : List Str) × Perm entries m
      × ((ip : Str)
          → (find ip m ≡ share mbs (count ip ost_ips))
            × (count ip machines ≡ present (count ip ost_ips)))
      × (r.2 ≡ calls_of result job_id rule entries)
      × (((r.1 ≡ true)
            × AllSet result job_id rule entries
            × (r.0.active_rules
                ≡ assign job_id (record { rule_name = rule; ost_ips = machines }) rm.active_rules))
          ⊎ ((r.1 ≡ false)
              × (AllSet result job_id rule entries → ⊥)
              × (r.0.active_rules ≡ rm.active_rules)))

  abbrev pub SetRulesOutcome : Answer → Type 0
  SetRulesOutcome r =
      (((ost_ids ≡ []) ⊎ (find job_id rm.active_rules ≢ none)) × (r ≡ (rm, false, [])))
      ⊎ (((ost_ids ≢ []) × (find job_id rm.active_rules ≡ none))
          × (((determine_ost_ips lustre rm.ids rm.ips ost_ids).2 ≡ none)
                × (r.1 ≡ false)
                × (r.2 ≡ [])
                × (r.0.active_rules ≡ rm.active_rules)
              ⊎ ((ost_ips : List Str) × ((determine_ost_ips lustre rm.ids rm.ips ost_ids).2
                    ≡ some ost_ips)
                  × Resolved ost_ids ost_ips
                  × Asked ost_ips r)))

  abbrev cached : RuleManager
  cached =
      let (ids, ips, _) = determine_ost_ips lustre rm.ids rm.ips ost_ids in
      record rm { ids = ids; ips = ips }

  abbrev guard : Bool
  guard = is_empty ost_ids || is_some (find job_id rm.active_rules)

  abbrev addresses : Option (List Str)
  addresses = (determine_ost_ips lustre rm.ids rm.ips ost_ids).2

  -- What a later RemoveRules does.
  abbrev pub Undone : Answer → Type 0
  Undone u =
      (ost_ips : List Str) × (machines : List Str) × ((determine_ost_ips lustre rm.ids rm.ips
          ost_ids).2
        ≡ some ost_ips)
      × ((ip : Str) → count ip machines ≡ present (count ip ost_ips))
      × (u.1 ≡ true)
      × (u.2 ≡ map (λ ip. remove_rule ip rule job_id) machines)
      × ((k : Str) → find k u.0.active_rules ≡ find k rm.active_rules)
