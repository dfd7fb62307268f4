-- ===== src/Lustre/Local.antt =====
-- src/common/Lustre.cpp: the methods of `LocalLustre`. Running a command (`exec` of util.h, with
-- the output that it leaves) and looking for a file (`stat`) are parameters.
use qos_planner.Common.{
  ℕ, List, [], ◌∷◌, ◌++◌, Bool, true, false, Option, none, some, ◌>>=◌, ◌&&◌, ◌==◌, if◌then◌else◌,
  Str, str, to_string,
}
use qos_planner.Retry.{c_str}
use qos_planner.Rules.{is_some}
use qos_planner.Monitor.Threads.{member}
use qos_planner.Lustre.{Lustre, OstsResults}
use qos_planner.Lustre.Parse.{
  parse_osts_from_get_stripe, parse_osts_from_lfs_osts, parse_ost_ip_from_get_param_osc,
}
use qos_planner.Lustre.Regex.{Item}

abbrev Exec : Type 0
Exec = Str → Option Str

-- `StartJobTbfRule`
unfoldable pub start_job_tbf_rule : Exec → Str → Str → ℕ → Bool
start_job_tbf_rule exec jobid rule_name rpc_rate_limit = is_some (
    exec (
      str "lctl set_param ost.OSS.ost_io.nrs_tbf_rule=\"start "
      ++ rule_name
      ++ str " {"
      ++ jobid
      ++ str "} "
      ++ to_string rpc_rate_limit
      ++ str "\""))

-- `ChangeJobTbfRule`
unfoldable pub change_job_tbf_rule : Exec → Str → Str → ℕ → Bool
change_job_tbf_rule exec jobid rule_name new_rpc_rate_limit = is_some (
    exec (
      str "lctl set_param ost.OSS.ost_io.nrs_tbf_rule=\"change "
      ++ rule_name
      ++ str " "
      ++ to_string new_rpc_rate_limit
      ++ str "\""))

-- `StopJobTbfRule`
unfoldable pub stop_job_tbf_rule : Exec → Str → Str → Bool
stop_job_tbf_rule exec jobid rule_name =
    is_some
      (exec (str "lctl set_param ost.OSS.ost_io.nrs_tbf_rule=\"stop " ++ rule_name ++ str "\""))

-- `GetOstsForFile` of one file.
unfoldable pub get_osts_for_file : Exec → (Str → Bool) → Str → List Str → Option (List Str)
unfolding parse_osts_from_get_stripe c_str
get_osts_for_file exec stat file osts =
    let parsed = exec (str "lfs getstripe " ++ file) >>= λ getstripe_out.
    some (parse_osts_from_get_stripe (c_str getstripe_out) osts) in
    if stat file then parsed else none

-- `std::copy` to the stream, with the separator behind each.
unfoldable pub copy_osts : List Str → Str
copy_osts [] = []
copy_osts (o ∷ osts) = o ++ 32 ∷ copy_osts osts

-- The insertions into `ost_set`.
unfoldable pub ost_set : List Str → List Str → List Str
unfolding member
ost_set [] known = known
ost_set (o ∷ osts) known = ost_set osts (if member o known then known else known ++ o ∷ [])

-- `GetOstsForFile` of several files; `visit` is the order in which `ost_set` is visited.
unfoldable pub get_osts_for_files :
    Exec → (List Str → List Str) → List Str → List Str → Option (List Str)
unfolding parse_osts_from_get_stripe c_str copy_osts ost_set
get_osts_for_files exec visit files osts =
    exec (str "lfs getstripe " ++ copy_osts osts) >>= λ getstripe_out.
    some (visit (ost_set (parse_osts_from_get_stripe (c_str getstripe_out) osts) []))

-- `GetOstList`
unfoldable pub get_ost_list : Exec → Str → List OstsResults → Option (List OstsResults)
unfolding parse_osts_from_lfs_osts
get_ost_list exec path output =
    exec (str "lfs osts " ++ path) >>= λ cmd_out. some (parse_osts_from_lfs_osts cmd_out output)

abbrev starts_with : Str → Str → Bool
starts_with [] s = true
starts_with (k ∷ p) [] = false
starts_with (k ∷ p) (c ∷ s) = k == c && starts_with p s

-- The text before the first "_UUID", or all of it if there is none.
unfoldable pub shortened : Str → Str
shortened [] = []
shortened (c ∷ s) = if starts_with (str "_UUID") (c ∷ s) then [] else c ∷ shortened s

-- `GetIPOfOst`
unfoldable pub get_ip_of_ost : Exec → (Str → List Item) → Str → Str → Option Str
unfolding parse_ost_ip_from_get_param_osc shortened
get_ip_of_ost exec special ost_uuid ip_address =
    let shortened_id = shortened ost_uuid in
    exec (str "lctl get_param osc." ++ shortened_id ++ str "*.ost_conn_uuid") >>= λ cmd_out.
    some (parse_ost_ip_from_get_param_osc special cmd_out shortened_id ip_address)

-- `LocalLustre`, as the planner, the caches and the cluster state call it.
abbrev pub local_lustre : Exec → (Str → Bool) → (Str → List Item) → Lustre
local_lustre exec stat special = record {
  get_ost_list = λ path. get_ost_list exec path [];
  get_ip_of_ost = λ uuid. get_ip_of_ost exec special uuid [];
  get_osts_for_file = λ file. get_osts_for_file exec stat file [];
}
