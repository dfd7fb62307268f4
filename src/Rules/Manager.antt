-- ===== src/Rules/Manager.antt =====
-- `SetRules` and `RemoveRules` on every branch.
use mathlib.Core.List.Perm
use mathlib.Core.List.{mem-cons_self, mem-cons_of_mem}
use qos_planner.Common.{
  ℕ, suc, ◌*◌, ◌%◌, ◌<◌, ◌≡◌, sym, subst, ap, ◌∙◌, List, [], ◌∷◌, ◌++◌, Mem, Perm, Bool, true,
  false, none, some, if_pos, if_neg, Str, Str-discrete, arith, Bool-cases, Option-cases, some_eq,
  inl, inr, ◌↔◌,
}
use qos_planner.Common.Map.{find, assign}
use qos_planner.Lustre.{Lustre}
use qos_planner.Rules.{
  RuleManager, NrsCall, set_rule, set_rules_async, is_empty, determine_ost_ips, compute_oss_to_mbs,
  set_rules_on, remove_rules, uint32_range, lustre_tbf_rule_postfix,
}
use qos_planner.Rules.Cache.{Ids, Ips, to_uuid, get_ip}
use qos_planner.Rules.Shares.{count, share, compute_oss_to_mbs-share}
use qos_planner.Rules.Async.{removals, AllSet, set_rules_async-succeeds, set_rules_async-keeps}

mem-of-find : (k : Str) (v : ℕ) (m : List (Str × ℕ)) → find k m ≡ some v → Mem (k, v) m
unfolding find
mem-of-find k v [] e = cc
mem-of-find k v ((j, w) ∷ m) e = elim (Str-discrete j k) [
  | yes hit ↦ rw (sym (here hit (rw (if_pos _ hit) at e))) mem-cons_self
  | no miss ↦ mem-cons_of_mem _ (mem-of-find k v m (rw (if_neg _ miss) at e))
]
  where
    here : j ≡ k → some w ≡ some v → ◌≡◌ {A = Str × ℕ} (j, w) (k, v)
    here p q = ground arith

abbrev rule_of : Str → Str
rule_of job_id = lustre_tbf_rule_postfix ++ job_id

module _ (result : NrsCall → Bool) (order : List (Str × ℕ) → List (Str × ℕ)) (rm : RuleManager)
    (ost_ips : List Str) (job_id : Str) (mbs : ℕ) where
  abbrev entries : List (Str × ℕ)
  entries = order (compute_oss_to_mbs mbs ost_ips [] []).0

  abbrev machines : List Str
  machines = (compute_oss_to_mbs mbs ost_ips [] []).1

  -- Behind the addresses, the calls are those of SetRulesAsync; success is that every machine accepts.
  pub set_rules_on-cases :
      (((set_rules_on result order rm ost_ips job_id mbs).1 ≡ true)
        ↔ AllSet result job_id (rule_of job_id) entries)
      × ((set_rules_on result order rm ost_ips job_id mbs).1 ≡ true
          → (set_rules_on result order rm ost_ips job_id mbs).0.active_rules
            ≡ assign job_id
                (record { rule_name = rule_of job_id; ost_ips = machines })
                rm.active_rules)
      × ((set_rules_on result order rm ost_ips job_id mbs).1 ≡ false
          → (set_rules_on result order rm ost_ips job_id mbs).0 ≡ rm)
      × ((set_rules_on result order rm ost_ips job_id mbs).2
          ≡ (set_rules_async result entries job_id (rule_of job_id)).0)
  unfolding set_rules_on
  set_rules_on-cases =
      let same : (set_rules_on result order rm ost_ips job_id mbs).1
          ≡ (set_rules_async result entries job_id (rule_of job_id)).1 =
        ground arith in
      let law = set_rules_async-succeeds result job_id (rule_of job_id) entries in
      (
        ((λ e. law.0 (sym same ∙ e)), λ a. same ∙ law.1 a),
        (λ e. ground arith),
        (λ e. ground arith),
        ground arith,
      )

  module _ (bound : mbs < uint32_range) (shuffled : (m : List (Str × ℕ)) → Perm (order m) m)
      (inactive : find job_id rm.active_rules ≡ none) where
    -- With the addresses at hand, for a throughput below 2^32 and a job without active rules, in
    -- whatever order the map is visited: if SetRules fails, a machine of the job that accepts its
    -- rule keeps it: the rule is sent to it, no call removes it, and a later RemoveRules of the job
    -- finds nothing to remove.
    pub set_rules_on_leaves_rule :
        (ip : Str) (n : ℕ)
        → count ip ost_ips ≡ suc n
        → ((k : ℕ) → result (set_rule ip job_id (rule_of job_id) k) ≡ true)
        → (set_rules_on result order rm ost_ips job_id mbs).1 ≡ false
        → Mem
            (set_rule ip job_id (rule_of job_id) ((suc n * mbs) % uint32_range))
            (set_rules_on result order rm ost_ips job_id mbs).2
          × (removals ip (set_rules_on result order rm ost_ips job_id mbs).2 ≡ 0)
          × (remove_rules (set_rules_on result order rm ost_ips job_id mbs).0 job_id
              ≡ (rm, false, []))
    unfolding remove_rules
    set_rules_on_leaves_rule ip n served accepts failed =
        let (_, _, unchanged, calls) = set_rules_on-cases in
        let entry =
          mem-of-find ip ((suc n * mbs) % uint32_range) (compute_oss_to_mbs mbs ost_ips [] []).0
            ((compute_oss_to_mbs-share mbs ost_ips ip bound).0 ∙ ap (share mbs) served) in
        let (sent, kept) =
          set_rules_async-keeps result job_id (rule_of job_id) ip ((suc n * mbs) % uint32_range)
            entries accepts ((Perm.mem_iff (shuffled _)).1 entry) in
        (rw calls sent, rw calls kept, rw (unchanged failed) (rw (inactive, remove_rules)))

-- Every text of the list is there and not empty, one for each id.
abbrev pub Resolved : List Str → List Str → Type 0
Resolved [] [] = Unit {0}
Resolved [] (ip ∷ ips) = ⊥
Resolved (id ∷ ids) [] = ⊥
Resolved (id ∷ ids) (ip ∷ ips) = (is_empty ip ≡ false) × Resolved ids ips

-- Where determineOstIps succeeds, it has found one address for each OST, none of them empty.
pub determine_ost_ips-Resolved :
    (lustre : Lustre) (ids : Ids) (ips : Ips) (ost_ids found : List Str)
    → (determine_ost_ips lustre ids ips ost_ids).2 ≡ some found
    → Resolved ost_ids found
unfolding determine_ost_ips
determine_ost_ips-Resolved lustre ids ips [] found e = rw (sym (some_eq e)) tt
determine_ost_ips-Resolved lustre ids ips (id ∷ rest) found e =
    let ids' = (to_uuid lustre ids id).0 in
    let ips' = (get_ip lustre ips (to_uuid lustre ids id).1).0 in
    let ip = (get_ip lustre ips (to_uuid lustre ids id).1).1 in
    let more = (determine_ost_ips lustre ids' ips' rest).2 in
    elim (Bool-cases (is_empty ip)) [
      | inl empty ↦ let no_result : ⊥ = ground arith in absurd no_result
      | inr full ↦ elim (Option-cases more) [
        | inl failed ↦ let no_result : ⊥ = ground arith in absurd no_result
        | inr (others, got) ↦
            let whole : ip ∷ others ≡ found = ground arith in
            subst (Resolved (id ∷ rest)) whole
              (full, determine_ost_ips-Resolved lustre ids' ips' rest others got)
      ]
    ]
