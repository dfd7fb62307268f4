-- ===== src/Rules/Tests.antt =====
-- Runs of the rule manager.
use mathlib.Core.List.Perm
use qos_planner.Common.{
  ℕ, ◌*◌, ◌%◌, ◌^◌, ◌≡◌, refl, List, [], ◌∷◌, Mem, true, false, none, some, Str, str, str_ltb,
  Str-discrete, arith,
}
use qos_planner.Common.Map.{find, assign}
use qos_planner.Rules.{
  set_rule, remove_rule, determine_ost_ips, compute_oss_to_mbs, set_calls, cleanup_calls,
  set_rules_async, set_rules_on, set_rules, remove_rules,
}
use qos_planner.Rules.Cache.{ids_of, update_cache, to_uuid, get_ip}
use qos_planner.Rules.Shares.{count, share, present, compute_oss_to_mbs-share}
use qos_planner.Rules.Async.{removals}
use qos_planner.Rules.Manager.{set_rules_on_leaves_rule}
use qos_planner.Rules.Samples.{answers, no_rules, all_accept, second_refuses}

abbrev rule : Str
rule = str "_qosp7"

abbrev ips : List Str
ips = str "ip1" ∷ str "ip1" ∷ str "ip2" ∷ []

abbrev same_order : List (Str × ℕ) → List (Str × ℕ)
same_order m = m

-- The machine of two OSTs is asked for twice the throughput.
set_rules_calls :
    (set_rules answers all_accept same_order no_rules
      (str "o1" ∷ str "o2" ∷ str "o3" ∷ [])
      (str "7")
      5).2
    ≡ set_rule (str "ip1") (str "7") rule 10 ∷ set_rule (str "ip2") (str "7") rule 5 ∷ []
unfolding set_rules determine_ost_ips to_uuid get_ip update_cache ids_of find assign Str-discrete
    str_ltb compute_oss_to_mbs set_rules_on set_rules_async set_calls cleanup_calls
set_rules_calls = refl

-- If the second machine refuses, only it is cleaned up.
refused_calls : set_rules_on second_refuses same_order no_rules ips (str "7") 5 ≡ (
  no_rules,
  false,
  set_rule (str "ip1") (str "7") rule 10
      ∷ set_rule (str "ip2") (str "7") rule 5
      ∷ remove_rule (str "ip2") rule (str "7")
      ∷ [],
)
unfolding find assign Str-discrete str_ltb compute_oss_to_mbs set_rules_on set_rules_async set_calls
    cleanup_calls second_refuses
refused_calls = refl

two_osts : count (str "ip1") ips ≡ 2
unfolding count Str-discrete
two_osts = refl

first_accepts : (k : ℕ) → second_refuses (set_rule (str "ip1") (str "7") rule k) ≡ true
unfolding second_refuses Str-discrete
first_accepts k = refl

refused : (set_rules_on second_refuses same_order no_rules ips (str "7") 5).1 ≡ false
unfolding find assign Str-discrete str_ltb compute_oss_to_mbs set_rules_on set_rules_async set_calls
    cleanup_calls second_refuses
refused = refl

no_rule : find (str "7") no_rules.active_rules ≡ none
unfolding find
no_rule = refl

set_rules_on_leaves_rule_example :
    Mem
      (set_rule (str "ip1") (str "7") rule ((2 * 5) % 2 ^ 32))
      (set_rules_on second_refuses same_order no_rules ips (str "7") 5).2
    × (removals (str "ip1") (set_rules_on second_refuses same_order no_rules ips (str "7") 5).2 ≡ 0)
    × (remove_rules (set_rules_on second_refuses same_order no_rules ips (str "7") 5).0 (str "7")
        ≡ (no_rules, false, []))
set_rules_on_leaves_rule_example =
    set_rules_on_leaves_rule second_refuses same_order no_rules ips (str "7") 5 (omega arith)
      (λ m. Perm.rfl) no_rule (str "ip1") 1 two_osts first_accepts refused

abbrev osts : List Str
osts = str "o1" ∷ str "o2" ∷ str "o3" ∷ []

compute_oss_to_mbs-share_example :
    (find (str "ip1") (compute_oss_to_mbs 5 ips [] []).0 ≡ share 5 (count (str "ip1") ips))
    × (count (str "ip1") (compute_oss_to_mbs 5 ips [] []).1 ≡ present (count (str "ip1") ips))
compute_oss_to_mbs-share_example = compute_oss_to_mbs-share 5 ips (str "ip1") (omega arith)

found_ips :
    (determine_ost_ips answers [] [] (str "o1" ∷ str "o3" ∷ [])).2
    ≡ some (str "ip1" ∷ str "ip2" ∷ [])
unfolding determine_ost_ips to_uuid get_ip update_cache ids_of find assign Str-discrete str_ltb
found_ips = refl

unknown_uuid : find {V = Str} (str "u1") [] ≡ none
unfolding find
unknown_uuid = refl

ip_of_u1 : answers.get_ip_of_ost (str "u1") ≡ some (str "ip1")
unfolding find Str-discrete
ip_of_u1 = refl
