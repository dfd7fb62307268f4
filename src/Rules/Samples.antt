-- ===== src/Rules/Samples.antt =====
-- A cluster of two machines and a rule manager, which the tests of several components start from.
use qos_planner.Common.{[], ◌∷◌, Bool, true, false, none, some, ite, Str, str, Str-discrete}
use qos_planner.Common.Map.{find}
use qos_planner.Lustre.{Lustre, OstsResults}
use qos_planner.Rules.{RuleManager, NrsCall, set_rule, remove_rule}

abbrev ost : Str → Str → OstsResults
ost number uuid = record { number = number; uuid = uuid; status = str "ACTIVE" }

-- The OSTs o1 and o2 stand on one machine, o3 on another one.
abbrev pub answers : Lustre
answers = record {
  get_ost_list = λ path.
      some (ost (str "o1") (str "u1") ∷ ost (str "o2") (str "u2") ∷ ost (str "o3") (str "u3") ∷ []);
  get_ip_of_ost = λ uuid.
      find uuid ((str "u1", str "ip1") ∷ (str "u2", str "ip1") ∷ (str "u3", str "ip2") ∷ []);
  get_osts_for_file = λ path. some (str "o1" ∷ []);
}

-- Lustre does not answer.
abbrev pub silent : Lustre
silent = record {
  get_ost_list = λ path. none;
  get_ip_of_ost = λ uuid. none;
  get_osts_for_file = λ path. none;
}

abbrev pub no_rules : RuleManager
no_rules = record { active_rules = []; ids = []; ips = [] }

-- Every machine accepts.
abbrev pub all_accept : NrsCall → Bool
all_accept c = true

-- The second machine refuses every rule.
unfoldable pub second_refuses : NrsCall → Bool
second_refuses (set_rule ip job rule mbs) = ite (Str-discrete ip (str "ip2")) false true
second_refuses (remove_rule ip rule job) = true
