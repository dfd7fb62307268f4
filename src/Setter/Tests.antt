-- ===== src/Setter/Tests.antt =====
-- Runs of the rule setters.
use qos_planner.Common.{digits, ◌≡◌, refl, [], false, some, str}
use qos_planner.Rules.{set_rule}
use qos_planner.Setter.{build_local_set_rule_command, ssh_result}

command :
    build_local_set_rule_command (str "7") (str "_qosp7") 120
    ≡ str "lctl set_param ost.OSS.ost_io.nrs_tbf_rule=\"start _qosp7 {7} 120\""
unfolding build_local_set_rule_command digits
command = refl

-- Without an address no rule is set.
no_address : ssh_result (λ cmd. some []) (set_rule [] (str "7") (str "_qosp7") 120) ≡ false
unfolding ssh_result
no_address = refl
